-- ===== src/Rdt/FaultInjector.antt =====
-- rdt/fault_injector.py. `random.random()` returns a multiple of 2 ** -53 below 1, so a rate is the
-- number of such multiples below it. The generator is a parameter; one call holds the lock.
pub mod Faults
use hybrid_ftp_system.Prelude.{
  ℕ, zero, suc, ◌-◌, ◌*◌, ◌^◌, ◌<◌, List, [], ◌∷◌, Option, Bytes, length, ltb, bit_xor,
  if◌then◌else◌, Result, ok, err, raise_if, ◌>>◌, ◌>>=◌,
}

-- `random.Random`, with the documented ranges of the two draws.
pub record Random : Type 1 where
  pub State : Type 0
  pub seeded : Option ℕ → State
  pub random : State → ℕ × State
  pub randrange : ℕ → State → ℕ × State
  pub random_lt : (s : State) → (random s).0 < 2 ^ 53
  pub randrange_lt : (n : ℕ) (s : State) → 0 < n → (randrange n s).0 < n

-- 1.0
abbrev pub certain : ℕ
certain = 2 ^ 53

pub record FaultConfig : Type 0 where
  pub loss_rate : ℕ
  pub corruption_rate : ℕ
  pub duplicate_rate : ℕ
  pub seed : Option ℕ

pub data RateError : Type 0 where
  loss_rate_range corruption_rate_range duplicate_rate_range : RateError

-- `output[index] ^= 1`
abbrev pub flip_at : ℕ → Bytes → Bytes
flip_at i [] = []
flip_at zero (x ∷ xs) = bit_xor x 1 ∷ xs
flip_at (suc i) (x ∷ xs) = x ∷ flip_at i xs

module _ (r : Random) where
  open r use {State, seeded, random, randrange}

  pub record FaultInjector : Type 0 where
    pub config : FaultConfig
    pub generator : State

  -- `FaultInjector(config)`
  unfoldable pub new_injector : FaultConfig → Result RateError FaultInjector
  new_injector c = do
    raise_if (ltb certain c.loss_rate) loss_rate_range
    raise_if (ltb certain c.corruption_rate) corruption_rate_range
    raise_if (ltb certain c.duplicate_rate) duplicate_rate_range
    ok (record { config = c; generator = seeded c.seed })

  -- `wire` is what `sock.sendto` is called with, in order.
  pub record Sending : Type 0 where
    pub wire : List Bytes
    pub sent : ℕ
    pub generator : State

  -- An empty datagram is not corrupted, and takes no draw.
  unfoldable pub corrupt : FaultConfig → Bytes → State → Bytes × State
  corrupt c [] s = ([], s)
  corrupt c (x ∷ xs) s =
      let (draw, s1) = random s in
      if ltb draw c.corruption_rate
      then (let (index, s2) = randrange (length (x ∷ xs)) s1 in (flip_at index (x ∷ xs), s2))
      else (x ∷ xs, s1)

  unfoldable pub sendto : FaultInjector → Bytes → Sending
  unfolding corrupt
  sendto injector datagram =
      let (loss, s1) = random injector.generator in
      if ltb loss injector.config.loss_rate
      then record { wire = []; sent = length datagram; generator = s1 }
      else (let (output, s2) = corrupt injector.config datagram s1 in
          let (duplicate, s3) = random s2 in
          record {
            wire =
                output ∷ (if ltb duplicate injector.config.duplicate_rate then output ∷ [] else []);
            sent = length output;
            generator = s3;
          })

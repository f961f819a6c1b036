-- ===== src/Client/Control/Keys/Native.antt =====
-- The two loops of `run_cli` do the same with a line.
use hybrid_ftp_system.Prelude.{
  ℕ, ◌==◌, ◌≡◌, refl, sym, ap, ◌∙◌, Bool, true, false, not, List, [], ◌∷◌, ◌++◌, append-nil,
  append_assoc, All, Bytes, if◌then◌else◌, Result, ok, err,
}
use hybrid_ftp_system.Prelude.Text.{codes, strip, split_words}
use hybrid_ftp_system.DataTransfer.Target.{SocketError}
use hybrid_ftp_system.DataTransfer.Client.{ClientData, Opening, udp_client_set_active}
use hybrid_ftp_system.Server.Metadata.{occurrences}
use hybrid_ftp_system.Client.Control.{FtpClient, send_command, enter_passive}
use hybrid_ftp_system.Client.Control.Cli.{
  CliStep, aborted_line, passive_line, plain_line, port_sent, port_bound, port_line, command_line,
  in_words, cli_round,
}
use hybrid_ftp_system.Client.Control.Keys.{
  KeyLoop, with_started, key_abort, key_passive, key_port_answer, key_port_bound, key_port,
  key_other, key_command, enter_key, is_extended, press, is_live, key_loop,
}

-- A character that the loop only puts into the buffer.
abbrev pub IsPlain : ℕ → Type 0
IsPlain key =
    (is_extended key ≡ false) × ((key == 13) ≡ false) × ((key == 3) ≡ false) × ((key == 8) ≡ false)

press-plain :
    (opening : Opening) (key : ℕ) (s : KeyLoop)
    → IsPlain key
    → press opening key s ≡ record s { current_buffer = s.current_buffer ++ key ∷ [] }
unfolding press
press-plain opening key s (x, a, b, c) = rw (a, b, c) refl

key_step :
    (opening : Opening) (key next : ℕ) (keys : List ℕ) (s : KeyLoop)
    → is_live s ≡ true
    → is_extended key ≡ false
    → key_loop opening (key ∷ next ∷ keys) s ≡ key_loop opening (next ∷ keys) (press opening key s)
unfolding key_loop
key_step opening key next keys s l x = rw (key_loop, l, x) refl

last_key :
    (opening : Opening) (s : KeyLoop)
    → is_live s ≡ true
    → key_loop opening (13 ∷ []) s ≡ enter_key opening s
unfolding key_loop press
last_key opening s l = rw (key_loop, l) refl

key_abort-eq : (r : Bool × FtpClient) → key_abort r ≡ aborted_line r
key_abort-eq (true, c) = refl
key_abort-eq (false, c) = refl

key_passive-eq : (r : Result SocketError Bool × FtpClient) → key_passive r ≡ passive_line r
key_passive-eq (ok b, c) = refl
key_passive-eq (err e, c) = refl

key_other-eq : (r : Bool × FtpClient) → key_other r ≡ plain_line r
key_other-eq (true, c) = refl
key_other-eq (false, c) = refl

key_port_answer-eq : (r : Bool × FtpClient) → key_port_answer r ≡ port_sent r
key_port_answer-eq (true, c) = refl
key_port_answer-eq (false, c) = refl

key_port_bound-eq :
    (user_input : Bytes) (c : FtpClient) (r : Result SocketError (Unit {0}) × ClientData)
    → key_port_bound user_input c r ≡ port_bound user_input c r
key_port_bound-eq user_input c (err e, channel) = refl
key_port_bound-eq user_input c (ok u, channel) =
    key_port_answer-eq (send_command user_input (record c { channel = channel }))

guarded : (a : Bool) (x y : CliStep) → (if a then x else y) ≡ (if not a then y else x)
guarded true x y = refl
guarded false x y = refl

key_port-eq :
    (opening : Opening) (user_input : Bytes) (parts : List Bytes) (c : FtpClient)
    → key_port opening user_input parts c ≡ port_line opening user_input c parts
unfolding key_port port_line
key_port-eq opening user_input [] c = refl
key_port-eq opening user_input (arg ∷ more) c =
    rw (key_port_bound-eq user_input c (udp_client_set_active opening c.channel))
      (guarded (occurrences b',' arg == 5) _ _)

-- The two copies of the command code do the same.
key_command-eq :
    (opening : Opening) (user_input : Bytes) (words : List Bytes) (c : FtpClient)
    → key_command opening user_input words c ≡ in_words opening user_input words c
unfolding key_command command_line
key_command-eq opening user_input [] c = refl
key_command-eq opening user_input (word ∷ parts) c =
    rw
      (
        key_abort-eq (send_command (codes "ABOR") c),
        key_passive-eq (enter_passive opening c),
        key_port-eq opening user_input parts c,
        key_other-eq (send_command user_input c),
      )
      refl

-- What the native loop does with a line, and an empty buffer.
abbrev pub native_line : Opening → Bytes → KeyLoop → KeyLoop
native_line opening text s =
    let step = cli_round opening text s.client in
    record {
      client = step.client;
      current_buffer = [];
      goes_on = step.goes_on;
      started = with_started step.started s.started;
    }

enter_key-native_line :
    (opening : Opening) (s : KeyLoop) → enter_key opening s ≡ native_line opening s.current_buffer s
unfolding enter_key cli_round
enter_key-native_line opening s =
    let user_input = strip s.current_buffer in
    rw (key_command-eq opening user_input (split_words user_input) s.client) refl

typed :
    (opening : Opening) (text : Bytes) (s : KeyLoop)
    → All IsPlain text
    → is_live s ≡ true
    → key_loop opening (text ++ 13 ∷ []) s
      ≡ enter_key opening (record s { current_buffer = s.current_buffer ++ text })
typed opening [] s h l =
    last_key opening s l
    ∙ ap (λ b. enter_key opening (record s { current_buffer = b }))
        (sym (append-nil s.current_buffer))
typed opening (c ∷ []) s (p, h) l =
    key_step opening c 13 [] s l p.0
    ∙ ap (key_loop opening (13 ∷ [])) (press-plain opening c s p)
    ∙ last_key opening (record s { current_buffer = s.current_buffer ++ c ∷ [] }) l
typed opening (c ∷ d ∷ cs) s (p, h) l =
    key_step opening c d (cs ++ 13 ∷ []) s l p.0
    ∙ ap (key_loop opening (d ∷ (cs ++ 13 ∷ []))) (press-plain opening c s p)
    ∙ typed opening (d ∷ cs) (record s { current_buffer = s.current_buffer ++ c ∷ [] }) h l
    ∙ ap (λ b. enter_key opening (record s { current_buffer = b }))
        (append_assoc s.current_buffer (c ∷ []) (d ∷ cs))

-- While the client is connected, typing a line of plain characters and Enter does to the client what
-- the native loop does with the line, which stands behind what was typed before: the same state of
-- the client, the same transfer started, and the loop left alike; and the buffer is empty then.
pub key_loop-line :
    (opening : Opening) (text : Bytes) (s : KeyLoop)
    → All IsPlain text
    → is_live s ≡ true
    → key_loop opening (text ++ 13 ∷ []) s ≡ native_line opening (s.current_buffer ++ text) s
key_loop-line opening text s h l =
    typed opening text s h l
    ∙ enter_key-native_line opening (record s { current_buffer = s.current_buffer ++ text })

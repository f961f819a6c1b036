-- ===== src/Server/Session/Phases.antt =====
-- What a client may rely on: the phases of a session, and the replies that may take it from one to
-- the next.
use hybrid_ftp_system.Prelude.{ℕ, ◌==◌, ◌≡◌, Bool, true, false, List, [], ◌∷◌, map}
use hybrid_ftp_system.DataTransfer.Session.{FtpSession}
use hybrid_ftp_system.Server.Replies.{Reply}

-- Not logged in; logged in; with a transfer beside; over.
pub data Phase : Type 0 where
  guest member transferring closed : Phase

abbrev pub phase_from : Bool → Bool → Bool → Phase
phase_from false active authenticated = closed
phase_from true true authenticated = transferring
phase_from true false true = member
phase_from true false false = guest

abbrev pub phase : Bool → FtpSession → Phase
phase is_open s = phase_from is_open s.transfer_active s.is_authenticated

abbrev pub codes_of : List Reply → List ℕ
codes_of = map (λ reply. reply.code)

-- The codes that go out, and the phase behind them. A guest is asked for the name and the password
-- until 230; only 150 starts a transfer, only for a member; while it runs, a request is answered 450,
-- 200 (NOOP) or 426 (ABOR); its end is told by 226 or 426, or not at all behind ABOR.
pub data Move : Phase → List ℕ → Phase → Type 0 where
  rests : (p : Phase) → Move p [] p
  asked_password : Move guest (331 ∷ []) guest
  out_of_order : Move guest (503 ∷ []) guest
  not_logged_in : Move guest (530 ∷ []) guest
  logs_in : Move guest (230 ∷ []) member
  works : (code : ℕ) → (code == 150) ≡ false → Move member (code ∷ []) member
  starts : Move member (150 ∷ []) transferring
  is_busy : Move transferring (450 ∷ []) transferring
  is_alive : Move transferring (200 ∷ []) transferring
  aborts : Move transferring (426 ∷ []) transferring
  completes : Move transferring (226 ∷ []) member
  fails : Move transferring (426 ∷ []) member
  stops : Move transferring [] member
  quits : (p : Phase) → Move p (221 ∷ []) closed
  drops : (p : Phase) → Move p [] closed

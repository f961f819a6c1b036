-- ===== src/Tests/Server.antt =====
-- A session on a disk that is the list of its folders.
use hybrid_ftp_system.Prelude.{
  ok, ◌≡◌, refl, true, false, List, [], ◌∷◌, Bytes, none, some, same, Bool, ◌||◌,
}
use hybrid_ftp_system.Prelude.Text as Text
use hybrid_ftp_system.Prelude.Text.{codes, strip}
use hybrid_ftp_system.DataTransfer.Target.{bound}
use hybrid_ftp_system.Server.Paths as Paths
use hybrid_ftp_system.Server.FileSystem as FileSystem
use hybrid_ftp_system.Server.FileSystem.{Os, absent, verify_user_credentials, stou_name, suffix}
use hybrid_ftp_system.Server.Metadata.{parse_port_argument}
use hybrid_ftp_system.Server.Metadata.Bounds.{IsTarget, parse_port_argument-IsTarget}
use hybrid_ftp_system.Server.Replies.{Request}
use hybrid_ftp_system.Server.Commands.Login as Login
use hybrid_ftp_system.Server.Commands.Folders as Folders
use hybrid_ftp_system.Server.Session as Session
use hybrid_ftp_system.Server.Session.{
  Connection, Event, requested, returned, accepted, run, step, handle_request, member_command,
  cmd_mkd,
}
use hybrid_ftp_system.Server.Session.Phases.{codes_of}
use hybrid_ftp_system.Server.Session.Requests.{Served}
use hybrid_ftp_system.Server.Session.Loop.{handle_request-Served}
use hybrid_ftp_system.Server.Session.Runs.{Sound, first_root, run-Sound}
use hybrid_ftp_system.Server.Session.Refines.{Moves, step-Moves}
use hybrid_ftp_system.Tests.Samples.{toy_sha}

abbrev has : List Bytes → Bytes → Bool
has [] path = false
has (p ∷ ps) path = same p path || has ps path

abbrev pub folders : Os (List Bytes)
folders = record {
  files = λ d. record { exists = has d; realpath = λ p. some p };
  isdir = has;
  getsize = λ d p. none;
  utc_time = λ d p. none;
  listdir = λ d p. none;
  stat = λ d p. none;
  read = λ d p. none;
  has_partial = λ d p n. false;
  makedirs = λ p d. (true, p ∷ d);
  rmdir = λ p d. (false, d);
  remove = λ p d. (false, d);
  rename = λ p q d. (false, d);
  write_temp = λ content d. (none, d);
}

abbrev pub storage : Bytes
storage = b'/' ∷ b's' ∷ []

abbrev pub disk : List Bytes
disk = storage ∷ []

abbrev pub asks : Bytes → Request
asks line = record {
  line = line;
  transfer_id = 7;
  timestamp = 9;
  rounds = 3;
  listener = bound 4 5000;
  local_ip = none;
  users = absent;
}

abbrev user_a : Bytes
user_a = b'U' ∷ b'S' ∷ b'E' ∷ b'R' ∷ b' ' ∷ b'a' ∷ []

abbrev pass_b : Bytes
pass_b = b'P' ∷ b'A' ∷ b'S' ∷ b'S' ∷ b' ' ∷ b'b' ∷ []

abbrev mkd_x : Bytes
mkd_x = b'm' ∷ b'k' ∷ b'd' ∷ b' ' ∷ b'x' ∷ []

abbrev welcome : Connection (List Bytes)
welcome = accepted folders storage 3 (b'c' ∷ []) 5000 disk

abbrev logged_in : Connection (List Bytes)
logged_in = run folders toy_sha welcome (requested (asks user_a) ∷ requested (asks pass_b) ∷ [])

abbrev session : List (Event (List Bytes))
session =
    requested (asks mkd_x)
    ∷ requested (asks user_a)
    ∷ requested (asks pass_b)
    ∷ requested (asks mkd_x)
    ∷ []

makes_folder :
    (codes_of (run folders toy_sha welcome session).sent ≡ 220 ∷ 530 ∷ 331 ∷ 230 ∷ 257 ∷ [])
    × ((run folders toy_sha welcome session).disk ≡ (b'/' ∷ b's' ∷ b'/' ∷ b'x' ∷ []) ∷ storage ∷ [])
unfolding run step accepted handle_request Session.handle_command Session.run_command
    Session.parse_request Session.commands Session.applied Session.member_command Text.split_once
    Text.upper Text.to_upper Text.strip Text.lstrip Text.rstrip Text.is_space Text.codes Login.user
    Login.pass verify_user_credentials Folders.mkd Folders.safe_path Paths.resolve_safe_path
    Paths.out_path Paths.target_path Paths.join Paths.dirname Paths.basename Paths.is_inside
makes_folder = (refl, refl)

run-Sound_example : Sound (first_root folders storage disk) (run folders toy_sha welcome session)
run-Sound_example = run-Sound folders toy_sha storage 3 (b'c' ∷ []) 5000 disk session (λ d. refl)

logged_in_placed : Sound storage logged_in
logged_in_placed =
    run-Sound folders toy_sha storage 3 (b'c' ∷ []) 5000 disk
      (requested (asks user_a) ∷ requested (asks pass_b) ∷ []) (λ d. refl)

step-Moves_example : Moves logged_in (step folders toy_sha logged_in (requested (asks mkd_x)))
step-Moves_example =
    step-Moves folders toy_sha storage (λ d. refl) logged_in (requested (asks mkd_x))
      logged_in_placed

handle_request-Served_example :
    Served folders storage logged_in.session disk
      (handle_request folders toy_sha logged_in.session disk (asks mkd_x))
handle_request-Served_example =
    handle_request-Served folders toy_sha storage logged_in.session disk (asks mkd_x)
      logged_in_placed.placed (λ d. refl) logged_in_placed.loyal

abbrev taken_name : Bytes
taken_name = stou_name 3 9 (suffix (strip (b'a' ∷ b'.' ∷ b't' ∷ []))) 0

abbrev crowded : List Bytes
crowded = Paths.join storage taken_name ∷ disk

-- The text 1,2,3,4,8,0.
abbrev port_arg : Bytes
port_arg = b'1' ∷ b',' ∷ b'2' ∷ b',' ∷ b'3' ∷ b',' ∷ b'4' ∷ b',' ∷ b'8' ∷ b',' ∷ b'0' ∷ []

abbrev port_host : Bytes
port_host = b'1' ∷ b'.' ∷ b'2' ∷ b'.' ∷ b'3' ∷ b'.' ∷ b'4' ∷ []

port_accepted : parse_port_argument port_arg ≡ ok (port_host, 2048)
unfolding parse_port_argument strip Text.lstrip Text.rstrip Text.is_space Text.split_on Text.to_int
    Text.read_digits Text.is_digit Text.decimal Text.digits_within
port_accepted = refl

parse_port_argument-IsTarget_example : IsTarget port_host 2048
parse_port_argument-IsTarget_example = parse_port_argument-IsTarget port_arg port_accepted

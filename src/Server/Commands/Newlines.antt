-- ===== src/Server/Commands/Newlines.antt =====
-- The line ends of an ASCII download, and of an ASCII upload.
use hybrid_ftp_system.Prelude.{◌==◌, ◌≡◌, refl, arith, Bool-cases, inl, inr, false, [], ◌∷◌, Bytes}
use hybrid_ftp_system.DataTransfer.Upload.{starts_with_lf, crlf_to_lf}
use hybrid_ftp_system.Server.Commands.Transfers.{lf_to_crlf, network_text}

starts_with_lf-converted : (text : Bytes) → starts_with_lf (lf_to_crlf text) ≡ false
unfolding lf_to_crlf
starts_with_lf-converted [] = refl
starts_with_lf-converted (c ∷ cs) = ground arith

crlf_to_lf-lf_to_crlf : (text : Bytes) → crlf_to_lf (lf_to_crlf text) ≡ text
unfolding crlf_to_lf lf_to_crlf
crlf_to_lf-lf_to_crlf [] = refl
crlf_to_lf-lf_to_crlf (c ∷ cs) = elim (Bool-cases (c == 10)) [
  | inl line_end ↦ ground (arith, line_end, crlf_to_lf-lf_to_crlf cs)
  | inr other ↦ ground (arith, other, crlf_to_lf-lf_to_crlf cs, starts_with_lf-converted cs)
]

-- The bytes that an ASCII download sends, taken in as an ASCII upload takes them, are the file with
-- its CR LF turned into LF.
pub crlf_to_lf-network_text :
    (content : Bytes) → crlf_to_lf (network_text content) ≡ crlf_to_lf content
unfolding network_text
crlf_to_lf-network_text content = crlf_to_lf-lf_to_crlf (crlf_to_lf content)

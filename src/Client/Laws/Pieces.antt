-- ===== src/Client/Laws/Pieces.antt =====
-- ASCII text comes through the loop that reads a response unchanged, in whatever pieces it is read.
use mathlib.Core.List.{append-nil, append_assoc}
use rs1541fs.Prelude.{
  ℕ, zero, suc, ◌+◌, ◌≤◌, ◌<◌, ◌≡◌, refl, ap, ◌∙◌, List, [], ◌∷◌, ◌++◌, none, some, ltb, false,
  arith, length, length-append, lt→ltb, All,
}
use rs1541fs.Error.{ok}
use rs1541fs.Ipc.{Request}
use rs1541fs.Client.Lossy.{decode, from_utf8_lossy}
use rs1541fs.Client.Connection.{
  Read, bytes_read, max_response_size, take_in, read_response, Connection, in_time, read_all,
  parsed, send_request,
}

-- A stream that gives these pieces and then ends.
abbrev pub pieces_read : List (List ℕ) → ℕ → Read
pieces_read [] at = bytes_read []
pieces_read (piece ∷ pieces) zero = bytes_read piece
pieces_read (piece ∷ pieces) (suc at) = pieces_read pieces at

abbrev pub concat : List (List ℕ) → List ℕ
concat [] = []
concat (piece ∷ pieces) = piece ++ concat pieces

-- Some bytes, all of them ASCII.
abbrev pub IsAscii : List ℕ → Type 0
IsAscii piece = (0 < length piece) × All (λ b. b < 0x80) piece

from_utf8_lossy-All : (piece : List ℕ) → All (λ b. b < 0x80) piece → from_utf8_lossy piece ≡ piece
unfolding from_utf8_lossy decode
from_utf8_lossy-All [] h = refl
from_utf8_lossy-All (b ∷ piece) h =
    rw (lt→ltb b 0x80 h.0) (ap (λ l. b ∷ l) (from_utf8_lossy-All piece h.1))

reads_of : (reads : ℕ → Read) (at : ℕ) (read : Read) → reads (at + 0) ≡ read → reads at ≡ read
reads_of reads at read e = ap reads (omega arith) ∙ e

pieces_read_lem :
    (fuel : ℕ) (reads : ℕ → Read) (at : ℕ) (response_data : List ℕ) (pieces : List (List ℕ))
    → ((k : ℕ) → reads (at + k) ≡ pieces_read pieces k)
    → All IsAscii pieces
    → length response_data + length (concat pieces) ≤ max_response_size
    → length (concat pieces) ≤ fuel
    → read_response (suc fuel) reads at response_data ≡ some (ok (response_data ++ concat pieces))
unfolding read_response take_in
pieces_read_lem fuel reads at response_data [] same ascii short enough =
    rw (read_response, reads_of reads at (bytes_read []) (same 0), append-nil response_data) refl
pieces_read_lem fuel reads at response_data ([] ∷ pieces) same ascii short enough =
    absurd (omega (arith, ascii.0.0))
pieces_read_lem zero reads at response_data ((b ∷ piece) ∷ pieces) same ascii short enough =
    absurd (omega arith)
pieces_read_lem (suc fuel) reads at response_data ((b ∷ piece) ∷ pieces) same ascii short enough =
    rw
      (
        read_response,
        reads_of reads at (bytes_read (b ∷ piece)) (same 0),
        fits,
        from_utf8_lossy-All (b ∷ piece) ascii.0.1,
      )
      (rw (← append_assoc response_data (b ∷ piece) (concat pieces)) (
        pieces_read_lem fuel reads (suc at) (response_data ++ b ∷ piece) pieces later ascii.1
          (omega (
            arith,
            length-append response_data (b ∷ piece),
            length-append (b ∷ piece) (concat pieces),
          ))
          (omega (arith, length-append (b ∷ piece) (concat pieces)))))
  where
    fits : ltb max_response_size (length response_data + length (b ∷ piece)) ≡ false
    fits = ground (arith, length-append (b ∷ piece) (concat pieces))

    later : (k : ℕ) → reads (suc at + k) ≡ pieces_read pieces k
    later k = ap reads (omega arith) ∙ same (suc k)

-- Every call of the exchange but the reads succeeds.
pub record IsOpen (c : Connection) : Type 0 where
  pub connect : c.connect ≡ none
  pub set_read_timeout : c.set_read_timeout ≡ none
  pub set_write_timeout : c.set_write_timeout ≡ none
  pub to_writer : c.to_writer ≡ none
  pub write_newline : c.write_newline ≡ none
  pub flush : c.flush ≡ none

read_all-concat :
    (reads : ℕ → Read) (pieces : List (List ℕ))
    → ((k : ℕ) → reads k ≡ pieces_read pieces k)
    → All IsAscii pieces
    → length (concat pieces) ≤ max_response_size
    → read_all reads ≡ ok (concat pieces)
unfolding read_all
read_all-concat reads pieces same ascii short = ap in_time (
    pieces_read_lem max_response_size reads 0 [] pieces (λ k. ap reads (omega arith) ∙ same k) ascii
      (omega arith) short)

-- On a connection where only the reads matter, a response in ASCII of at most the limit is parsed whole
-- and unchanged, in whatever pieces it is read.
pub send_request-concat :
    (c : Connection) (request : Request) (pieces : List (List ℕ))
    → IsOpen c
    → ((k : ℕ) → c.read request k ≡ pieces_read pieces k)
    → All IsAscii pieces
    → length (concat pieces) ≤ max_response_size
    → send_request c request ≡ parsed (c.from_str (concat pieces))
unfolding send_request
send_request-concat c request pieces h same ascii short =
    rw
      (
        h.connect,
        h.set_read_timeout,
        h.set_write_timeout,
        h.to_writer,
        h.write_newline,
        h.flush,
        read_all-concat (c.read request) pieces same ascii short,
      )
      refl

-- ===== src/Client/Laws/Failing.antt =====
-- Which error an exchange ends with.
use rs1541fs.Prelude.{String, ◌≡◌, refl, List, [], ◌∷◌, Option, none, some}
use rs1541fs.Error.{Error, io, serde, Result, err, ◌>>=◌, ◌>>◌}
use rs1541fs.Ipc.{Request}
use rs1541fs.Client.Connection.{Connection, check, read_all, parsed, send_request}

-- The calls of an exchange before its reads, in order: the error that each is turned into, and the text
-- of its error.
abbrev pub stages : Connection → List ((String → Error) × Option String)
stages c =
    (io "Failed to connect to daemon", c.connect)
    ∷ (io "Failed to set read timeout", c.set_read_timeout)
    ∷ (io "Failed to set write timeout", c.set_write_timeout)
    ∷ (serde "Failed to serialize request", c.to_writer)
    ∷ (io "Failed to write newline", c.write_newline)
    ∷ (io "Failed to flush request", c.flush)
    ∷ []

abbrev pub first_failure : List ((String → Error) × Option String) → Option Error
first_failure [] = none
first_failure ((mapped, some e) ∷ rest) = some (mapped e)
first_failure ((mapped, none) ∷ rest) = first_failure rest

abbrev pub unless {ℓ} : {A : Type ℓ} → Option Error → Result A → Result A
unless none r = r
unless (some e) r = err e

module _ {ℓ} {A : Type ℓ} (r : Result A) where
  abbrev chain : List ((String → Error) × Option String) → Result A
  chain [] = r
  chain ((mapped, o) ∷ rest) = check mapped o >> chain rest

  chain-unless :
      (l : List ((String → Error) × Option String)) → chain l ≡ unless (first_failure l) r
  chain-unless [] = refl
  chain-unless ((mapped, none) ∷ rest) = chain-unless rest
  chain-unless ((mapped, some e) ∷ rest) = refl

-- An exchange ends with the error of the first call that fails before its reads, whatever the later ones
-- do; without one it is what the reads and the parser make of it.
send_request-first_failure :
    (c : Connection) (request : Request)
    → send_request c request
      ≡ unless
          (first_failure (stages c))
          (read_all (c.read request) >>= λ response_data. parsed (c.from_str response_data))
unfolding send_request
send_request-first_failure c request =
    chain-unless (read_all (c.read request) >>= λ response_data. parsed (c.from_str response_data))
      (stages c)

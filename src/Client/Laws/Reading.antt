-- ===== src/Client/Laws/Reading.antt =====
-- The loop that reads a response: it ends, what it has read is bounded, and ASCII text comes through
-- unchanged.
use rs1541fs.Prelude.{
  ℕ, zero, suc, ◌+◌, ◌-◌, ◌*◌, ◌≤◌, ◌<◌, ◌≡◌, ◌≢◌, refl, subst, ◌⊎◌, inl, inr, List, [], ◌∷◌, ◌++◌,
  some, ltb, arith, length, length-append, Bool-cases, false,
}
use rs1541fs.Error.{Result, ok, err, panic, ok-injective}
use rs1541fs.Client.Lossy.{
  Utf8State, between, within, first_byte, next_byte, decode, from_utf8_lossy,
}
use rs1541fs.Client.Connection.{
  Read, bytes_read, would_block, read_failed, max_response_size, too_long, take_in, read_response,
  read_fuel,
}

-- The output that a state still owes, at most.
abbrev owed : Utf8State → ℕ
owed between = 0
owed (within seen low high left) = 3 + (length seen - 1)

first_byte-owed : (b : ℕ) → length (first_byte b).0 + owed (first_byte b).1 ≤ 3
first_byte-owed b = ground arith

next_byte-owed :
    (state : Utf8State) (b : ℕ)
    → length (next_byte state b).0 + owed (next_byte state b).1 ≤ owed state + 3
next_byte-owed between b = ground (arith, first_byte-owed b)
next_byte-owed (within seen low high zero) b =
    ground (arith, first_byte-owed b, length-append seen (b ∷ []))
next_byte-owed (within seen low high (suc left)) b =
    ground (arith, first_byte-owed b, length-append seen (b ∷ []))

decode-length :
    (state : Utf8State) (bytes : List ℕ)
    → length (decode state bytes) ≤ owed state + 3 * length bytes
unfolding decode
decode-length between [] = omega arith
decode-length (within seen low high left) [] = omega arith
decode-length state (b ∷ bytes) = omega (
  arith,
  length-append (next_byte state b).0 (decode (next_byte state b).1 bytes),
  next_byte-owed state b,
  decode-length (next_byte state b).1 bytes,
)

-- No byte is lost without a trace.
decode-pos :
    (state : Utf8State) (bytes : List ℕ)
    → 0 < owed state + length bytes
    → 0 < length (decode state bytes)
unfolding decode
decode-pos between [] h = absurd (omega arith)
decode-pos (within seen low high left) [] h = omega arith
decode-pos state (b ∷ bytes) h = grind (
  arith,
  length-append (next_byte state b).0 (decode (next_byte state b).1 bytes),
  shows state b,
  decode-pos (next_byte state b).1 bytes,
)
  where
    shows :
        (state : Utf8State) (b : ℕ) → 0 < length (next_byte state b).0 + owed (next_byte state b).1
    shows between b = ground arith
    shows (within seen low high zero) b = ground (arith, length-append seen (b ∷ []))
    shows (within seen low high (suc left)) b = ground (arith, length-append seen (b ∷ []))

from_utf8_lossy-length : (bytes : List ℕ) → length (from_utf8_lossy bytes) ≤ 3 * length bytes
unfolding from_utf8_lossy
from_utf8_lossy-length bytes = omega (arith, decode-length between bytes)

from_utf8_lossy-pos : (bytes : List ℕ) → 0 < length bytes → 0 < length (from_utf8_lossy bytes)
unfolding from_utf8_lossy
from_utf8_lossy-pos bytes h = decode-pos between bytes (omega arith)

-- Reads of at most so many bytes.
abbrev pub IsBuffered : ℕ → (ℕ → Read) → Type 0
IsBuffered size reads = (k : ℕ) (buf : List ℕ) → reads k ≡ bytes_read buf → length buf ≤ size

-- What the loop may end with.
abbrev pub IsEnd : ℕ → Result (List ℕ) → Type 0
IsEnd size r =
    (r ≢ panic)
    × ((response_data : List ℕ)
        → r ≡ ok response_data
        → length response_data ≤ max_response_size + 2 * size)

module _ (size : ℕ) where
  -- A turn either ends well or adds a byte, within the bound.
  take_in_lem :
      (read : Read) (response_data : List ℕ)
      → ((buf : List ℕ) → read ≡ bytes_read buf → length buf ≤ size)
      → length response_data ≤ max_response_size + 2 * size
      → ((r : Result (List ℕ)) × (take_in read response_data ≡ inl r) × IsEnd size r)
        ⊎ ((longer : List ℕ) × (take_in read response_data ≡ inr longer)
            × (length response_data < length longer)
            × (length response_data < max_response_size)
            × (length longer ≤ max_response_size + 2 * size))
  unfolding take_in
  take_in_lem (bytes_read []) response_data h bound = inl (
    ok response_data,
    refl,
    (
      λ e. cc e,
      λ d e. subst (λ l. length l ≤ max_response_size + 2 * size) (ok-injective _ _ e) bound,
    ),
  )
  take_in_lem (bytes_read (b ∷ buf)) response_data h bound =
      elim (Bool-cases (ltb max_response_size (length response_data + length (b ∷ buf)))) [
        | inl e ↦ rw e (inl (err too_long, refl, (λ e'. cc e', λ d e'. absurd (cc e'))))
        | inr e ↦ rw e (
            inr (
              response_data ++ from_utf8_lossy (b ∷ buf),
              refl,
              (grown e).0,
              (grown e).1,
              (grown e).2,
            ))
      ]
    where
      grown :
          ltb max_response_size (length response_data + length (b ∷ buf)) ≡ false
          → (length response_data < length (response_data ++ from_utf8_lossy (b ∷ buf)))
            × (length response_data < max_response_size)
            × (length (response_data ++ from_utf8_lossy (b ∷ buf)) ≤ max_response_size + 2 * size)
      grown e = ground (
        arith,
        h (b ∷ buf) refl,
        length-append response_data (from_utf8_lossy (b ∷ buf)),
        from_utf8_lossy-length (b ∷ buf),
        from_utf8_lossy-pos (b ∷ buf) (omega arith),
      )
  take_in_lem would_block response_data h bound = inl (_, refl, (λ e. cc e, λ d e. absurd (cc e)))
  take_in_lem (read_failed e) response_data h bound =
      inl (_, refl, (λ e. cc e, λ d e. absurd (cc e)))

  read_response_lem :
      (fuel : ℕ) (reads : ℕ → Read) (at : ℕ) (response_data : List ℕ)
      → IsBuffered size reads
      → length response_data ≤ max_response_size + 2 * size
      → max_response_size ≤ fuel + length response_data
      → (r : Result (List ℕ)) × (read_response (suc fuel) reads at response_data ≡ some r)
        × IsEnd size r
  unfolding read_response
  read_response_lem zero reads at response_data h bound enough =
      elim (take_in_lem (reads at) response_data (h at) bound) [
        | inl (r, e, end) ↦ (r, rw (read_response, e) refl, end)
        | inr (longer, e, grows, small, short) ↦ absurd (omega arith)
      ]
  read_response_lem (suc fuel) reads at response_data h bound enough =
      elim (take_in_lem (reads at) response_data (h at) bound) [
        | inl (r, e, end) ↦ (r, rw (read_response, e) refl, end)
        | inr (longer, e, grows, small, short) ↦
            rw (read_response, e)
              (read_response_lem fuel reads (suc at) longer h short (omega arith))
      ]

-- With a buffer of any size, the loop that reads a response ends within its fuel, whatever is read, not
-- with a panic, and what it takes for the response is at most the limit and twice the buffer long.
pub read_response-IsEnd :
    (size : ℕ) (reads : ℕ → Read)
    → IsBuffered size reads
    → (r : Result (List ℕ)) × (read_response read_fuel reads 0 [] ≡ some r) × IsEnd size r
read_response-IsEnd size reads h =
    read_response_lem size max_response_size reads 0 [] h (omega arith) (omega arith)

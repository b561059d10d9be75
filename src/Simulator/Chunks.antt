-- ===== src/Simulator/Chunks.antt =====
-- How the chunked sender of internal/simulator/mock_server.go cuts the stream.
use mavlink_doctor.Common.{
  ℕ, zero, suc, ◌≤◌, ◌<◌, List, [], ◌∷◌, ◌++◌, ◌≡◌, refl, sym, ap, ◌∙◌, Bytes, All, All-append,
  length, take, drop, take-append-drop, length-take, length-drop, append_assoc, arith,
}
use mavlink_doctor.Simulator.{read_chunks, send_chunks}

abbrev pub concat : List Bytes → Bytes
concat [] = []
concat (w ∷ ws) = w ++ concat ws

concat-append : (xs ys : List Bytes) → concat (xs ++ ys) ≡ concat xs ++ concat ys
concat-append [] ys = refl
concat-append (x ∷ xs) ys = rw (concat-append xs ys) (sym (append_assoc x (concat xs) (concat ys)))

-- A datagram that can be sent: not empty, and within the chunk size.
abbrev pub IsChunk : ℕ → Bytes → Type 0
IsChunk size d = (0 < length d) × (length d ≤ size)

read_chunks-concat :
    (fuel size : ℕ) (w : Bytes) → 0 < size → length w ≤ fuel → concat (read_chunks fuel size w) ≡ w
unfolding read_chunks
read_chunks-concat zero size [] h f = refl
read_chunks-concat zero size (b ∷ bs) h f = absurd (omega arith)
read_chunks-concat (suc fuel) size [] h f = refl
read_chunks-concat (suc fuel) size (b ∷ bs) h f =
    ap (λ x. take size (b ∷ bs) ++ x)
      (read_chunks-concat fuel size (drop size (b ∷ bs)) h
        (omega (arith, length-drop size (b ∷ bs))))
    ∙ take-append-drop size (b ∷ bs)

read_chunks-IsChunk :
    (fuel size : ℕ) (w : Bytes) → 0 < size → All (IsChunk size) (read_chunks fuel size w)
unfolding read_chunks
read_chunks-IsChunk zero size w h = tt
read_chunks-IsChunk (suc fuel) size [] h = tt
read_chunks-IsChunk (suc fuel) size (b ∷ bs) h =
    (omega (arith, length-take size (b ∷ bs)), read_chunks-IsChunk fuel size (drop size (b ∷ bs)) h)

-- For every positive chunk size and all writes of the node: the datagrams, one after the other, are the
-- bytes of the writes, none lost, repeated or out of order; and each is not empty and at most as long as
-- the chunk size.
pub send_chunks_stream :
    (size : ℕ) (ws : List Bytes)
    → 0 < size
    → (concat (send_chunks size ws) ≡ concat ws) × All (IsChunk size) (send_chunks size ws)
unfolding send_chunks
send_chunks_stream size [] h = (refl, tt)
send_chunks_stream size (w ∷ ws) h =
    let (stream, fits) = send_chunks_stream size ws h in
    (
      concat-append (read_chunks (length w) size w) (send_chunks size ws)
          ∙ ap (λ x. x ++ concat (send_chunks size ws))
              (read_chunks-concat (length w) size w h (omega arith))
          ∙ ap (λ x. w ++ x) stream,
      All-append (IsChunk size) (read_chunks (length w) size w) (send_chunks size ws)
          (read_chunks-IsChunk (length w) size w h) fits,
    )

pub take_all : (n : ℕ) (w : Bytes) → length w ≤ n → take n w ≡ w
take_all zero [] h = refl
take_all zero (b ∷ bs) h = absurd (omega arith)
take_all (suc n) [] h = refl
take_all (suc n) (b ∷ bs) h = ap (◌∷◌ b) (take_all n bs (omega arith))

pub drop_all : (n : ℕ) (w : Bytes) → length w ≤ n → drop n w ≡ []
drop_all zero [] h = refl
drop_all zero (b ∷ bs) h = absurd (omega arith)
drop_all (suc n) [] h = refl
drop_all (suc n) (b ∷ bs) h = drop_all n bs (omega arith)

read_chunks-nil : (fuel size : ℕ) → read_chunks fuel size [] ≡ []
unfolding read_chunks
read_chunks-nil zero size = refl
read_chunks-nil (suc fuel) size = refl

read_chunks-small : (size : ℕ) (w : Bytes) → IsChunk size w → read_chunks (length w) size w ≡ w ∷ []
unfolding read_chunks
read_chunks-small size [] h = absurd (omega arith)
read_chunks-small size (b ∷ bs) h =
    rw (take_all size (b ∷ bs) h.1, drop_all size (b ∷ bs) h.1, read_chunks-nil (length bs) size)

-- Where no write is empty or longer than the chunk size, each write is one datagram.
pub send_chunks_small :
    (size : ℕ) (ws : List Bytes) → All (IsChunk size) ws → send_chunks size ws ≡ ws
unfolding send_chunks
send_chunks_small size [] h = refl
send_chunks_small size (w ∷ ws) h = rw (read_chunks-small size w h.0, send_chunks_small size ws h.1)

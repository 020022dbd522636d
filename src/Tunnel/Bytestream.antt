-- ===== src/Tunnel/Bytestream.antt =====
-- cli/tunnel/wsnet.go: the messages of a websocket read as one stream of bytes.
use roxey.Base.{
  ℕ, zero, suc, ◌≤◌, ◌≡◌, refl, ap, sym, ◌∙◌, true, List, [], ◌∷◌, ◌++◌, Option, none, some, arith,
  inl, inr, Bytes, is_empty, length, length-take, take, drop, Bool-cases, Option-cases,
}
use mathlib.Core.Path.{subst}
use mathlib.Core.List.{append_assoc}
use roxey.Tunnel.{WsConn, Reader, read_some, read_messages, read, pending}

abbrev pub flat : List Bytes → Bytes
flat [] = []
flat (m ∷ ms) = m ++ flat ms

abbrev pub rest_of : Option Bytes → Bytes
rest_of none = []
rest_of (some rest) = rest

-- the bytes that are still to come
abbrev pub stream : WsConn → Bytes
stream w = rest_of w.reader ++ flat w.messages

-- what is documented of `io.Reader`: it gives no more than there is room for, and says that the
-- message ends only when nothing is left of it.
pub record IsReader (r : Reader) : Type 0 where
  pub fits : (size : ℕ) (rest : Bytes) → r.gives size rest ≤ size
  pub complete :
      (size : ℕ) (rest : Bytes) → r.ends size rest ≡ true → length rest ≤ r.gives size rest

take-drop : (n : ℕ) (s : Bytes) → take n s ++ drop n s ≡ s
take-drop zero s = refl
take-drop (suc n) [] = refl
take-drop (suc n) (c ∷ s) = ap (◌∷◌ c) (take-drop n s)

take-all : (n : ℕ) (s : Bytes) → length s ≤ n → take n s ≡ s
take-all zero [] h = refl
take-all zero (c ∷ s) h = absurd (omega (arith, h))
take-all (suc n) [] h = refl
take-all (suc n) (c ∷ s) h = ap (◌∷◌ c) (take-all n s (omega (arith, h)))

length-take_le : (n : ℕ) (s : Bytes) → length (take n s) ≤ n
length-take_le n s = omega (arith, length-take n s)

-- An answer keeps the stream and fits into the buffer, and an error comes at its end only.
abbrev pub IsRead : ℕ → Bytes → Option (Bytes × WsConn) → Type 0
IsRead size before none = before ≡ []
IsRead size before (some (given, w)) = (given ++ stream w ≡ before) × (length given ≤ size)

-- the same of one round, which may pass over a message that is at its end
abbrev IsRound : ℕ → Bytes → List Bytes → Option (Bytes × WsConn) → Type 0
IsRound size rest ms none = rest ≡ []
IsRound size rest ms (some answer) = IsRead size (rest ++ flat ms) (some answer)

flat_pending : (o : Option Bytes) (ms : List Bytes) → flat (pending o ++ ms) ≡ rest_of o ++ flat ms
flat_pending none ms = refl
flat_pending (some rest) ms = refl

module _ (r : Reader) (c : IsReader r) where
  empty_rest :
      (size : ℕ) (rest : Bytes)
      → r.ends size rest ≡ true
      → is_empty (take (r.gives size rest) rest) ≡ true
      → rest ≡ []
  empty_rest size [] e h = refl
  empty_rest size (b ∷ rest) e h =
      let whole = take-all (r.gives size (b ∷ rest)) (b ∷ rest) (c.complete size (b ∷ rest) e) in
      let bad : is_empty (b ∷ rest) ≡ true = sym (ap is_empty whole) ∙ h in absurd (ground arith)

  read_some-IsRound :
      (size : ℕ) (rest : Bytes) (ms : List Bytes) → IsRound size rest ms (read_some r size rest ms)
  unfolding read_some
  read_some-IsRound size rest ms =
      let n = r.gives size rest in
      let small : length (take n rest) ≤ size =
        omega (arith, length-take_le n rest, c.fits size rest) in
      elim (Bool-cases (r.ends size rest)) [
        | inr more ↦ rw more (
          sym (append_assoc (take n rest) (drop n rest) (flat ms))
              ∙ ap (λ s. s ++ flat ms) (take-drop n rest),
          small,
        )
        | inl end ↦ elim (Bool-cases (is_empty (take n rest))) [
          | inl empty ↦ rw (end, empty) (empty_rest size rest end empty)
          | inr some_left ↦
              rw (end, some_left)
                (ap (λ s. s ++ flat ms) (take-all n rest (c.complete size rest end)), small)
        ]
      ]

  read_messages-IsRead :
      (size : ℕ) (ms : List Bytes) → IsRead size (flat ms) (read_messages r size ms)
  unfolding read_messages
  read_messages-IsRead size [] = refl
  read_messages-IsRead size (m ∷ ms) =
      let round = read_some-IsRound size m ms in
      elim (Option-cases (read_some r size m ms)) [
        | inr (answer, e) ↦ rw (e, read_messages) (subst (IsRound size m ms) e round)
        | inl e ↦
            let empty : m ≡ [] = subst (IsRound size m ms) e round in
            rw (e, read_messages, empty) (read_messages-IsRead size ms)
      ]

  -- Whatever the sizes of the buffers, the lengths of the messages (empty ones among them) and the
  -- pieces in which the library hands them out: `Read` returns the next bytes of the messages put
  -- together, as many as fit at most, and leaves the rest to be read. It fails only when every byte
  -- has been returned.
  pub read-IsRead : (size : ℕ) (w : WsConn) → IsRead size (stream w) (read r size w)
  unfolding read
  read-IsRead size w =
      subst (λ s. IsRead size s (read r size w)) (flat_pending w.reader w.messages)
        (read_messages-IsRead size (pending w.reader ++ w.messages))

-- ===== src/Io/Delivery.antt =====
-- `st_write` puts the caller's bytes on the wire in their order, without a gap or a repetition.
use st_win.Prelude.{
  ℕ, zero, suc, ◌-◌, ◌≤◌, ◌≡◌, ◌≢◌, ◌⊎◌, inl, inr, refl, sym, ap, subst, ◌∙◌, ◌==◌, Bool, true,
  false, Option, none, some, List, [], ◌∷◌, ◌++◌, length, append-nil, append_assoc, arith,
  Bool-cases,
}
use st_win.TimeoutHeap.{Addr}
use st_win.Io.{Code, get_error, is_eintr, is_not_ready}
use st_win.Io.Transfer.{
  done, error, Round, round, Outcome, returned, failed, take, drop, write_loop, write_end, write,
}

take-drop : (n : ℕ) (xs : List ℕ) → take n xs ++ drop n xs ≡ xs
unfolding take drop
take-drop zero xs = refl
take-drop (suc n) [] = refl
take-drop (suc n) (x ∷ xs) = ap (λ ys. x ∷ ys) (take-drop n xs)

drop-length : (xs : List ℕ) → drop (length xs) xs ≡ []
unfolding drop
drop-length [] = refl
drop-length (x ∷ xs) = drop-length xs

-- `out` is a beginning of `all`, and the whole of it if there is no error.
abbrev pub Begins : List ℕ → List ℕ → Option Code → Type 0
Begins all out err = (rest : List ℕ) × (out ++ rest ≡ all) × (err ≡ none → rest ≡ [])

abbrev BeginsIf : List ℕ → Option (List ℕ × Option Code) → Type 0
BeginsIf all none = Unit
BeginsIf all (some r) = Begins all r.0 r.1

stopped : (all out rest : List ℕ) (e : Code) → out ++ rest ≡ all → Begins all out (some e)
stopped all out rest e eq = (rest, eq, λ n. absurd (some_none n))
  where
    some_none : some e ≡ none → ⊥
    some_none n = cc

write_loop-Begins :
    (rounds : List (Round ℕ)) (buf sent : List ℕ)
    → BeginsIf (sent ++ buf) (write_loop rounds buf sent)
unfolding write_loop
write_loop-Begins [] [] sent = ([], refl, λ _. refl)
write_loop-Begins (r ∷ rounds) [] sent = ([], refl, λ _. refl)
write_loop-Begins [] (b ∷ buf) sent = tt
write_loop-Begins (round (error w) polled ∷ rounds) (b ∷ buf) sent =
    let rest = write_loop-Begins rounds (b ∷ buf) sent in
    elim (Bool-cases (is_eintr (get_error w))) [
      | inl again ↦ rw again rest
      | inr other ↦ rw other (elim (Bool-cases (is_not_ready (get_error w))) [
        | inr hard ↦ rw hard (stopped (sent ++ (b ∷ buf)) sent (b ∷ buf) (get_error w) refl)
        | inl soft ↦ rw soft (polls polled rest)
      ])
    ]
  where
    polls :
        (polled : Option Code)
        → BeginsIf (sent ++ (b ∷ buf)) (write_loop rounds (b ∷ buf) sent)
        → BeginsIf (sent ++ (b ∷ buf)) (elim polled [
          | some e' ↦ some (sent, some e')
          | none ↦ write_loop rounds (b ∷ buf) sent
        ])
    polls none rest = rest
    polls (some e') rest = stopped (sent ++ (b ∷ buf)) sent (b ∷ buf) e' refl
write_loop-Begins (round (done n) polled ∷ rounds) (b ∷ buf) sent =
    let all = b ∷ buf in
    elim (Bool-cases (n == length all)) [
      | inl last ↦ rw last (whole n (ground arith))
      | inr part ↦
          rw part (polls polled (write_loop-Begins rounds (drop n all) (sent ++ take n all)))
    ]
  where
    joined : (n : ℕ) → (sent ++ take n (b ∷ buf)) ++ drop n (b ∷ buf) ≡ sent ++ (b ∷ buf)
    joined n = append_assoc sent _ _ ∙ ap (λ xs. sent ++ xs) (take-drop n (b ∷ buf))

    whole :
        (n : ℕ) → n ≡ length (b ∷ buf) → Begins (sent ++ (b ∷ buf)) (sent ++ take n (b ∷ buf)) none
    whole n e =
        (drop n (b ∷ buf), joined n, λ _. ap (λ k. drop k (b ∷ buf)) e ∙ drop-length (b ∷ buf))

    polls :
        (polled : Option Code)
        → BeginsIf
            ((sent ++ take n (b ∷ buf)) ++ drop n (b ∷ buf))
            (write_loop rounds (drop n (b ∷ buf)) (sent ++ take n (b ∷ buf)))
        → BeginsIf (sent ++ (b ∷ buf)) (elim polled [
          | some e' ↦ some (sent ++ take n (b ∷ buf), some e')
          | none ↦ write_loop rounds (drop n (b ∷ buf)) (sent ++ take n (b ∷ buf))
        ])
    polls none rest =
        subst
          (λ all. BeginsIf all (write_loop rounds (drop n (b ∷ buf)) (sent ++ take n (b ∷ buf))))
          (joined n) rest
    polls (some e') rest =
        stopped (sent ++ (b ∷ buf)) (sent ++ take n (b ∷ buf)) (drop n (b ∷ buf)) e' (joined n)

-- `write_loop` returns when there is a round for each byte and each of them moves a byte or more.
unfoldable pub moves : Round ℕ → Bool
moves (round (done (suc n)) none) = true
moves _ = false

abbrev pub AllMove : List (Round ℕ) → Type 0
AllMove [] = Unit
AllMove (r ∷ rounds) = (moves r ≡ true) × AllMove rounds

write_result :
    (buf wire : List ℕ) (r : Outcome ℕ) (o : Option (List ℕ × Option Code))
    → BeginsIf buf o
    → write_end buf o ≡ some (wire, r)
    → ((r ≡ returned (length buf)) × (wire ≡ buf))
      ⊎ ((e : Code) × (rest : List ℕ) × (r ≡ failed e) × (wire ++ rest ≡ buf))
unfolding write_end
write_result buf wire r none begins ran = cc
write_result buf wire r (some (out, none)) (rest, all, whole) ran =
    let same : out ≡ wire = cc in
    let code : r ≡ returned (length buf) = cc in
    inl (code, sym same ∙ sym (append-nil out) ∙ ap (λ xs. out ++ xs) (sym (whole refl)) ∙ all)
write_result buf wire r (some (out, some e)) (rest, all, whole) ran =
    let same : out ≡ wire = cc in
    let code : r ≡ failed e = cc in inr (e, rest, code, ap (λ xs. xs ++ rest) (sym same) ∙ all)

-- What `st_write` on a descriptor that is not null has put on the wire when it returns is a
-- beginning of the buffer, in the order of the buffer, and the whole buffer if it returns the
-- number of its bytes; it returns no other number.
pub write-Begins :
    (fd : Addr) (rounds : List (Round ℕ)) (buf wire : List ℕ) (r : Outcome ℕ)
    → fd ≢ 0
    → write fd rounds buf ≡ some (wire, r)
    → ((r ≡ returned (length buf)) × (wire ≡ buf))
      ⊎ ((e : Code) × (rest : List ℕ) × (r ≡ failed e) × (wire ++ rest ≡ buf))
unfolding write
write-Begins fd rounds buf wire r ne ran =
    let z : (fd == 0) ≡ false = ground arith in
    write_result buf wire r (write_loop rounds buf []) (write_loop-Begins rounds buf [])
      (rw z at ran)

length-drop : (n : ℕ) (xs : List ℕ) → length (drop n xs) ≡ length xs - n
unfolding drop
length-drop zero xs = omega arith
length-drop (suc n) [] = omega arith
length-drop (suc n) (x ∷ xs) = omega (arith, length-drop n xs)

write_loop-returns :
    (rounds : List (Round ℕ)) (buf sent : List ℕ)
    → AllMove rounds
    → length buf ≤ length rounds
    → (wire : List ℕ) × (write_loop rounds buf sent ≡ some (wire, none))
unfolding write_loop moves
write_loop-returns [] [] sent all enough = (sent, refl)
write_loop-returns (round reply polled ∷ rounds) [] sent all enough = (sent, refl)
write_loop-returns [] (b ∷ buf) sent all enough = absurd (omega (arith, enough))
write_loop-returns (round (done (suc n)) none ∷ rounds) (b ∷ buf) sent all enough =
    elim (Bool-cases (suc n == length (b ∷ buf))) [
      | inl last ↦ rw last (_, refl)
      | inr part ↦ rw part (
          write_loop-returns rounds (drop (suc n) (b ∷ buf)) _ all.1
            (omega (arith, length-drop (suc n) (b ∷ buf), enough)))
    ]
write_loop-returns (round (done (suc n)) (some e) ∷ rounds) (b ∷ buf) sent all enough = cc
write_loop-returns (round (done zero) polled ∷ rounds) (b ∷ buf) sent all enough = cc
write_loop-returns (round (error w) polled ∷ rounds) (b ∷ buf) sent all enough = cc

-- `st_write` on a descriptor that is not null sends the whole buffer and returns the number of its
-- bytes when every call of `send` takes a byte or more and every wait succeeds: as many calls as
-- there are bytes are enough.
pub write-returns :
    (fd : Addr) (rounds : List (Round ℕ)) (buf : List ℕ)
    → fd ≢ 0
    → AllMove rounds
    → length buf ≤ length rounds
    → write fd rounds buf ≡ some (buf, returned (length buf))
unfolding write write_end
write-returns fd rounds buf ne all enough =
    let z : (fd == 0) ≡ false = ground arith in
    let (wire, e) = write_loop-returns rounds buf [] all enough in
    let (rest, whole, none_left) = subst (BeginsIf buf) e (write_loop-Begins rounds buf []) in
    rw (z, e)
      (ap (λ (w : List ℕ). some (w, returned (length buf)))
        (sym (append-nil wire) ∙ ap (λ xs. wire ++ xs) (sym (none_left refl)) ∙ whole))

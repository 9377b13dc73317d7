-- ===== src/Fileio/Answers.antt =====
-- `stx_file_read` reads the section of the file that it is asked for.
use st_win.Prelude.{
  ℕ, zero, suc, ◌+◌, ◌≤◌, ◌<◌, ◌≡◌, inl, inr, refl, sym, ap, ◌∙◌, arith, ◌==◌, ltb, leb, ◌&&◌, true,
  false, Option, none, some, List, [], ◌∷◌, ◌++◌, length, eq-cases, lt-cases, append-nil,
}
use st_win.Prelude.Int.{pos}
use st_win.Io.Transfer.{take, drop}
use st_win.Fileio.{
  Calls, Regular, Words, Faithful, Child, Channel, seek_to, answer, send, read_out, read_data,
  read_reply, file_read_on, get_fileio_data, file_read,
}

-- The child lives, knows the position of its descriptor, and has no answer in the pipe.
pub record Synced {F : Type 0} (position : F → ℕ) (ch : Channel F) : Type 0 where
  pub c : Child F
  pub alive : ch.child ≡ some c
  pub at : c.pos ≡ position c.fd
  pub empty : ch.out ≡ []

take_all : (n : ℕ) (xs ys : List ℕ) → length xs ≡ n → take n (xs ++ ys) ≡ xs
unfolding take
take_all zero [] [] e = refl
take_all zero [] (y ∷ ys) e = refl
take_all zero (x ∷ xs) ys e = absurd (omega (arith, e))
take_all (suc n) [] ys e = absurd (omega (arith, e))
take_all (suc n) (x ∷ xs) ys e = ap (λ q. x ∷ q) (take_all n xs ys (omega (arith, e)))

drop_all : (n : ℕ) (xs ys : List ℕ) → length xs ≡ n → drop n (xs ++ ys) ≡ ys
unfolding drop
drop_all zero [] ys e = refl
drop_all zero (x ∷ xs) ys e = absurd (omega (arith, e))
drop_all (suc n) [] ys e = absurd (omega (arith, e))
drop_all (suc n) (x ∷ xs) ys e = drop_all n xs ys (omega (arith, e))

length-take : (n : ℕ) (xs : List ℕ) → length (take n xs) ≤ n
unfolding take
length-take zero xs = omega arith
length-take (suc n) [] = omega arith
length-take (suc n) (x ∷ xs) = omega (arith, length-take n xs)

-- The section of the file
abbrev pub section : List ℕ → ℕ → ℕ → List ℕ
section file offset nbytes = take nbytes (drop offset file)

module _ {F : Type 0} {calls : Calls F} {words : Words} {file : List ℕ} {position : F → ℕ}
    (regular : Regular calls file position) (faithful : Faithful words) where
  seek_to-lem :
      (offset : ℕ) (c : Child F)
      → c.pos ≡ position c.fd
      → (d : Child F) × (seek_to calls words offset c ≡ some d)
        × (d.pos ≡ offset)
        × (position d.fd ≡ offset)
  unfolding seek_to
  seek_to-lem offset c at = elim (eq-cases c.pos offset) [
    | inl same ↦
        let z : (c.pos == offset) ≡ true = ground arith in (c, rw z refl, same, sym at ∙ same)
    | inr diff ↦
        let z : (c.pos == offset) ≡ false = ground arith in
        let (g, e, p) = regular.seek offset c.fd in
        (record { fd = g; pos = offset }, rw (z, e) refl, refl, p)
  ]

  answer-lem :
      (offset nbytes : ℕ) (c : Child F)
      → 0 < nbytes
      → c.pos ≡ position c.fd
      → let bytes = section file offset nbytes in
        (d : Child F) × (answer calls words offset nbytes c
          ≡ some (d, words.encode (length bytes) ++ bytes))
        × (d.pos ≡ position d.fd)
  unfolding answer
  answer-lem offset nbytes c some_bytes at =
      let z : (nbytes == 0) ≡ false = ground arith in
      let (d, e, p, q) = seek_to-lem offset c at in
      let (g, r, moved) = regular.reads nbytes d.fd in
      (
        record { fd = g; pos = d.pos + length (section file offset nbytes) },
        rw (z, e, r, q) refl,
        ap (λ n. n + length (section file offset nbytes)) p ∙ sym (rw q at moved),
      )

  send-answer :
      (offset nbytes : ℕ) (ch : Channel F) (c d : Child F) (written : List ℕ)
      → ch.child ≡ some c
      → answer calls words offset nbytes c ≡ some (d, written)
      → send calls words offset nbytes ch ≡ record { child = some d; out = ch.out ++ written }
  unfolding send
  send-answer offset nbytes ch c d written alive e = rw (send, alive, e) refl

  send-lem :
      (offset nbytes : ℕ) (ch : Channel F)
      → 0 < nbytes
      → Synced position ch
      → let bytes = section file offset nbytes in
        (d : Child F) × (send calls words offset nbytes ch
          ≡ record { child = some d; out = words.encode (length bytes) ++ bytes })
        × (d.pos ≡ position d.fd)
  send-lem offset nbytes ch some_bytes s =
      let (d, e, p) = answer-lem offset nbytes s.c some_bytes s.at in
      let sent = send-answer offset nbytes ch s.c d _ s.alive e in
      (
        d,
        sent
            ∙ ap
                (λ q. record {
                  child = some d;
                  out =
                      q
                      ++ (words.encode (length (section file offset nbytes))
                          ++ section file offset nbytes);
                })
                s.empty,
        p,
      )

  -- What is left to read after the size.
  read_data-lem :
      (ch : Channel F) (bytes : List ℕ)
      → ch.out ≡ bytes
      → read_data calls words true (length bytes) ch
        ≡ (record { child = ch.child; out = [] }, pos (length bytes), bytes)
  unfolding read_data read_out
  read_data-lem ch bytes o =
      let all : take (length bytes) bytes ≡ bytes =
        ap (take (length bytes)) (sym (append-nil bytes)) ∙ take_all (length bytes) bytes [] refl in
      let left : drop (length bytes) bytes ≡ [] =
        ap (drop (length bytes)) (sym (append-nil bytes)) ∙ drop_all (length bytes) bytes [] refl in
      rw (o, left, all) refl

  read_reply-lem :
      (nbytes : ℕ) (bytes word : List ℕ) (ch : Channel F)
      → length word ≡ 8
      → words.decode word ≡ pos (length bytes)
      → length bytes ≤ nbytes
      → ch.out ≡ bytes
      → read_reply calls words true nbytes word ch
        ≡ (record { child = ch.child; out = [] }, pos (length bytes), bytes)
  unfolding read_reply
  read_reply-lem nbytes bytes word ch eight w le o =
      let z : (length word == 8) ≡ true = rw eight refl in
      elim (lt-cases 0 (length bytes)) [
        | inl more ↦
            let t : (ltb 0 (length bytes) && leb (length bytes) nbytes) ≡ true = ground arith in
            rw (z, w, t) (read_data-lem ch bytes o)
        | inr nothing ↦
            let t : (ltb 0 (length bytes) && leb (length bytes) nbytes) ≡ false = ground arith in
            let e = empty bytes nothing in
            rw (z, w, t)
              (ap (λ r. (ch, r, [])) w
                ∙ ap (λ q. (record { child = ch.child; out = q }, pos (length bytes), [])) (o ∙ e)
                ∙ ap (λ q. (record { child = ch.child; out = [] }, pos (length bytes), q)) (sym e))
      ]
    where
      empty : (q : List ℕ) → length q ≤ 0 → q ≡ []
      empty [] le = refl
      empty (x ∷ q) le = absurd (omega (arith, le))

  file_read_on-lem :
      (offset nbytes : ℕ) (ch : Channel F)
      → 0 < nbytes
      → nbytes ≤ 1024
      → Synced position ch
      → let bytes = section file offset nbytes in
        (ch' : Channel F) × Synced position ch'
        × (file_read_on calls words offset nbytes true true ch ≡ (ch', pos (length bytes), bytes))
  unfolding file_read_on read_out
  file_read_on-lem offset nbytes ch some_bytes few s =
      let bytes = section file offset nbytes in
      let (d, sent, p) = send-lem offset nbytes ch some_bytes s in
      let le = length-take nbytes (drop offset file) in
      let word = words.encode (length bytes) in
      let first = take_all 8 word bytes (faithful.size (length bytes)) in
      let rest = drop_all 8 word bytes (faithful.size (length bytes)) in
      let reply =
        read_reply-lem nbytes bytes word (record { child = some d; out = bytes })
          (faithful.size (length bytes)) (faithful.word (length bytes) (omega (arith, le, few))) le
          refl in
      (
        record { child = some d; out = [] },
        record { c = d; alive = refl; at = p; empty = refl },
        rw (sent, first, rest) reply,
      )

-- `stx_file_read` of 1 to 1024 bytes at an offset of a regular file, where the replies come in
-- time, on a descriptor at the beginning of its file or with a child that is in step, returns the
-- bytes of this section of the file and their number, fewer or none at the end of the file, and
-- leaves the child in step: its position is the descriptor's, and no reply is left in the pipe.
pub file_read-section :
    {F : Type 0} {calls : Calls F} {words : Words} {file : List ℕ} {position : F → ℕ}
    → Regular calls file position
    → Faithful words
    → (offset nbytes : ℕ) (fd : F) (stored : Option (Channel F)) → 0 < nbytes
    → nbytes ≤ 1024
    → (stored ≡ none → position fd ≡ 0)
    → ((c : Channel F) → stored ≡ some c → Synced position c)
    → let bytes = section file offset nbytes in
      (ch' : Channel F) × Synced position ch'
      × (file_read calls words offset nbytes true true true fd stored
          ≡ (some ch', pos (length bytes), bytes))
unfolding file_read get_fileio_data
file_read-section regular faithful offset nbytes fd none more few fresh kept =
    let (ch', s, e) =
      file_read_on-lem regular faithful offset nbytes
        (record { child = some (record { fd = fd; pos = 0 }); out = [] }) more few
        (record {
          c = record { fd = fd; pos = 0 };
          alive = refl;
          at = sym (fresh refl);
          empty = refl;
        }) in
    (ch', s, rw e refl)
file_read-section regular faithful offset nbytes fd (some old) more few fresh kept =
    let (ch', s, e) =
      file_read_on-lem regular faithful offset nbytes old more few (kept old refl) in
    (ch', s, rw e refl)

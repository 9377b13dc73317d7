-- ===== src/Dns/Packet.antt =====
-- The parser of dnsres.c stays inside the packet and the array of addresses.
use st_win.Prelude.{
  ℕ, zero, suc, ◌+◌, ◌*◌, ◌≤◌, ◌<◌, ◌≡◌, ◌⊎◌, inl, inr, refl, ◌==◌, ltb, leb, ◌&&◌, ◌||◌, List, [],
  ◌∷◌, Option, none, some, arith, Bool-cases,
}
use st_win.Vp.{Rc, ok, fail}
use st_win.Dns.Resolver.{
  Reply, Parse, Res, parse_record, answers_loop, start_parse, parsed, parse_answer,
}

-- Each part, an offset and a length, ends inside the packet.
abbrev pub Within : ℕ → List (ℕ × ℕ) → Type 0
Within len [] = Unit
Within len ((p, n) ∷ q) = (p + n ≤ len) × Within len q

record Sound (r : Reply) (num : ℕ) (old : ℕ → ℕ) (s : Parse) : Type 0 where
  pub count : s.i ≤ num
  pub outside : (k : ℕ) → num * 4 ≤ k → s.bytes k ≡ old k
  pub inside : Within r.len s.seen

moved-Sound :
    {r : Reply} {num : ℕ} {old : ℕ → ℕ} {s : Parse} (cp : ℕ)
    → Sound r num old s
    → Sound r num old (record s { cp = cp })
moved-Sound cp sound = record {
  count = sound.count;
  outside = sound.outside;
  inside = sound.inside;
}

parse_record-Sound :
    (r : Reply) (num : ℕ) (old : ℕ → ℕ) (s : Parse)
    → Sound r num old s
    → s.i < num
    → Sound r num old (parse_record r s).0
unfolding parse_record
parse_record-Sound r num old s sound room = elim (Bool-cases (leb r.len (s.cp + 10))) [
  | inl short ↦ rw short sound
  | inr long ↦
      let fits : s.cp + 10 < r.len = ground arith in
      elim (Bool-cases (r.getshort s.cp == 1)) [
        | inr other ↦
            rw (long, other)
              (record {
                count = sound.count;
                outside = sound.outside;
                inside = (omega arith, (omega arith, sound.inside));
              })
        | inl is_a ↦
            elim (Bool-cases
              (ltb 4 (r.getshort (s.cp + 8)) || ltb r.len (s.cp + 10 + r.getshort (s.cp + 8)))) [
                | inl bad ↦
                    rw (long, is_a, bad)
                      (record {
                        count = sound.count;
                        outside = sound.outside;
                        inside = (omega arith, (omega arith, (omega arith, sound.inside)));
                      })
                | inr good ↦
                    rw (long, is_a, good)
                      (record {
                        count = omega arith;
                        outside = λ k le. ground (arith, sound.outside k le);
                        inside = (
                          ground arith,
                          (omega arith, (omega arith, (omega arith, sound.inside))),
                        );
                      })
              ]
      ]
]

option_cases : (o : Option ℕ) → (o ≡ none) ⊎ ((n : ℕ) × (o ≡ some n))
option_cases none = inl refl
option_cases (some n) = inr (n, refl)

rc_cases : (rc : Rc) → (rc ≡ ok) ⊎ (rc ≡ fail)
rc_cases ok = inl refl
rc_cases fail = inr refl

answers_loop-Sound :
    (ancount num : ℕ) (r : Reply) (old : ℕ → ℕ) (s : Parse)
    → Sound r num old s
    → Sound r num old (answers_loop ancount num r s).0
unfolding answers_loop
answers_loop-Sound zero num r old s sound = sound
answers_loop-Sound (suc ancount) num r old s sound =
    elim (Bool-cases (ltb s.cp r.len && ltb s.i num)) [
      | inr over ↦ rw over sound
      | inl more ↦ elim (option_cases (r.expand s.cp)) [
        | inl bad ↦ rw (more, bad) sound
        | inr (n, named) ↦
            let at = record s { cp = s.cp + n } in
            let one =
              parse_record-Sound r num old at (moved-Sound (s.cp + n) sound) (ground arith) in
            elim (rc_cases (parse_record r at).1) [
              | inl went ↦
                  rw (more, named, named, went, named)
                    (answers_loop-Sound ancount num r old (parse_record r at).0 one)
              | inr stopped ↦ rw (more, named, named, stopped, named) one
            ]
      ]
    ]

-- `parse_answer` of any reply counts at most as many addresses as there is room for, writes nothing
-- behind the array of addresses, and reads the type, the time to live, the length and the data of
-- an answer inside the packet only.
pub parse_answer-bounded :
    (r : Reply) (s : Res)
    → ((parse_answer r s).0.num_addrs ≤ s.num_addrs)
      × ((k : ℕ) → s.num_addrs * 4 ≤ k → (parse_answer r s).0.bytes k ≡ s.bytes k)
      × Within r.len (parsed r s).0.seen
unfolding parse_answer
parse_answer-bounded r s =
    let sound =
      answers_loop-Sound r.ancount s.num_addrs r s.bytes (start_parse r s)
        (record { count = omega arith; outside = λ k le. refl; inside = tt }) in
    elim (rc_cases (parsed r s).1) [
      | inl well ↦ rw (parse_answer, well) (sound.count, sound.outside, sound.inside)
      | inr bad ↦ rw (parse_answer, bad) (omega arith, sound.outside, sound.inside)
    ]

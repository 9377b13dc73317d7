-- ===== src/Dns/Answers.antt =====
-- What `lookup_entry` writes for the caller, against the addresses that are stored.
use st_win.Prelude.{
  ℕ, zero, suc, ◌+◌, ◌≤◌, ◌<◌, ◌≡◌, ◌≢◌, ◌⊎◌, inl, inr, refl, ap, ◌==◌, ltb, Bool, true, false,
  ◌&&◌, List, [], ◌∷◌, ◌++◌, length, none, some, if◌then◌else◌, arith, eq-cases, lt-cases,
  Bool-cases,
}
use st_win.Prelude.Members.{has, remove_link}
use st_win.TimeoutHeap.{Addr}
use st_win.Lru.Entries.{Good}
use st_win.Lru.Lookup.{first, first-found, matches}
use st_win.Dns.{
  Dns, Data, host_hash, same_host, same_text, at_index, take, stx_min, answer, lookup_entry,
}
use st_win.Dns.Hash.{same_text-equal}
use st_win.Dns.Settle.{same_text_refl}
use st_win.Dns.Expiry.{lookup_entry-expires, lookup_fresh-cur, entry_of, data_of}

-- `r` is asked for with the room `num`: for one address, the one at the index `cur`, and else the
-- first `num` addresses, or all if there are fewer, with their number.
abbrev pub Answers : List ℕ → ℕ → ℕ → List ℕ × ℕ → Type 0
Answers addrs cur num r =
    ((num ≡ 1)
      × ((before : List ℕ) × (a : ℕ) × (after : List ℕ) × (addrs ≡ before ++ (a ∷ after))
          × (length before ≡ cur)
          × (r ≡ (a ∷ [], 1))))
    ⊎ ((num ≢ 1)
        × ((rest : List ℕ) × (addrs ≡ r.0 ++ rest)
            × (length r.0 ≡ r.1)
            × (((r.1 ≡ num) × (num ≤ length addrs))
                ⊎ ((r.1 ≡ length addrs) × (length addrs < num)))))

take-prefix :
    (n : ℕ) (q : List ℕ)
    → n ≤ length q
    → (rest : List ℕ) × (q ≡ take n q ++ rest) × (length (take n q) ≡ n)
take-prefix zero q le = (q, refl, refl)
take-prefix (suc n) [] le = absurd (omega (arith, le))
take-prefix (suc n) (a ∷ q) le =
    let (rest, e, k) = take-prefix n q (omega arith) in (rest, ap (λ p. a ∷ p) e, ap suc k)

at_index-split :
    (i : ℕ) (q : List ℕ)
    → i < length q
    → (before after : List ℕ) × (q ≡ before ++ (at_index i q ∷ after)) × (length before ≡ i)
at_index-split i [] lt = absurd (omega (arith, lt))
at_index-split zero (a ∷ q) lt = ([], q, refl, refl)
at_index-split (suc i) (a ∷ q) lt =
    let (before, after, e, k) = at_index-split i q (omega arith) in
    (a ∷ before, after, ap (λ p. a ∷ p) e, ap suc k)

-- The data of an entry: `num_addrs` addresses, and the index of one of them.
pub record Filled (info : Data) : Type 0 where
  pub size : length info.addrs ≡ info.num_addrs
  pub cur : info.cur < info.num_addrs

pub answer-Answers :
    (info : Data) (num : ℕ) (rotate : Bool)
    → Filled info
    → Answers info.addrs (if rotate then info.cur else 0) num (answer info num rotate)
answer-Answers info num rotate filled = elim (eq-cases num 1) [
  | inl one ↦
      let z : (num == 1) ≡ true = ground arith in
      let size = filled.size in
      let lt = filled.cur in
      let (before, after, e, k) =
        at_index-split (if rotate then info.cur else 0) info.addrs (ground arith) in
      rw z (inl (one, (before, _, after, e, k, refl)))
  | inr many ↦
      let z : (num == 1) ≡ false = ground arith in
      let size = filled.size in
      let (rest, e, k) = take-prefix (stx_min num info.num_addrs) info.addrs (ground arith) in
      rw z (
        inr (
          many,
          (
            rest,
            e,
            k,
            elim (lt-cases (length info.addrs) num) [
              | inl fewer ↦ inr (ground arith, fewer)
              | inr enough ↦ inl (ground arith, enough)
            ],
          ),
        ))
]

-- The first element that passes the test splits the list; if there is none, every element fails it.
first-split :
    (test : Addr → Bool) (q : List Addr)
    → first test q ≢ 0
    → (before after : List Addr) × (q ≡ before ++ (first test q ∷ after))
      × ((x : Addr) → has x before ≡ true → test x ≡ false)
unfolding first has
first-split test [] ne = absurd (ne refl)
first-split test (x ∷ q) ne = elim (Bool-cases (test x)) [
  | inl pass ↦ rw pass ([], q, refl, λ y m. cc)
  | inr stop ↦
      let (before, after, e, none_of) = first-split test q (rw stop at ne) in
      rw stop (
        x ∷ before,
        after,
        ap (λ p. x ∷ p) e,
        λ y m. elim (eq-cases x y) [
          | inl same ↦ rw (← same) stop
          | inr other ↦ none_of y (ground arith)
        ],
      )
]

first-none :
    (test : Addr → Bool) (q : List Addr)
    → has 0 q ≡ false
    → first test q ≡ 0
    → (x : Addr) → has x q ≡ true
    → test x ≡ false
unfolding first has
first-none test [] real nobody x m = cc
first-none test (y ∷ q) real nobody x m = elim (Bool-cases (test y)) [
  | inl pass ↦ let z : y ≡ 0 = rw pass at nobody in ground arith
  | inr stop ↦ elim (eq-cases y x) [
    | inl same ↦ rw (← same) stop
    | inr other ↦ first-none test q (ground arith) (rw stop at nobody) x (ground arith)
  ]
]

-- The entry is marked for deletion, or of another name.
abbrev pub NotOf : Addr → Dns → Addr → Type 0
NotOf host d x = (d.cache.delete_pending x ≡ true) ⊎ (d.text host ≢ d.text (d.cache.key x))

matches-NotOf :
    (host : Addr) (d : Dns) (x : Addr)
    → matches (host_hash d) (same_host d) host d.cache x ≡ false
    → NotOf host d x
matches-NotOf host d x fails = elim (Bool-cases (d.cache.delete_pending x)) [
  | inl marked ↦ inl marked
  | inr live ↦ inr (λ same.
      let equal : same_text (d.text host) (d.text (d.cache.key x)) ≡ true =
        rw (← same) (same_text_refl (d.text host)) in
      let passes : matches (host_hash d) (same_host d) host d.cache x ≡ true = rw (live, equal) in
      cc)
]

-- `e` is the latest entry of the host that is not marked for deletion.
pub record Latest (host : Addr) (d : Dns) (entries : List Addr) (e : Addr) : Type 0 where
  pub before : List Addr
  pub after : List Addr
  pub on : entries ≡ before ++ (e ∷ after)
  pub live : d.cache.delete_pending e ≡ false
  pub named : d.text host ≡ d.text (d.cache.key e)
  pub earlier : (x : Addr) → has x before ≡ true → NotOf host d x

found-Latest :
    (host : Addr) (d : Dns) (entries : List Addr)
    → entry_of host d entries ≢ 0
    → Latest host d entries (entry_of host d entries)
found-Latest host d entries there =
    let test = matches (host_hash d) (same_host d) host d.cache in
    let (before, after, e, none_of) = first-split test entries there in
    let passes = (first-found test entries there).1 in
    record {
      before = before;
      after = after;
      on = e;
      live = ground arith;
      named = same_text-equal (d.text host) _ (ground arith);
      earlier = λ x m. matches-NotOf host d x (none_of x m);
    }

-- `lookup_entry` of a host, over a good cache with some buckets whose entries hold as many
-- addresses as they say and the index of one of them: where the cache has no entry of the name that
-- is not marked for deletion, it finds nothing and the entries stay. Otherwise it takes the latest
-- such entry. If this has not expired, the answer to a request for one address is the one at the
-- entry's index, or the first one if the caller does not ask to rotate, and else the first
-- addresses, as many as are asked for or there are; the index moves to the next address, and from
-- the last one to the first, if one address is asked for with rotation, and the entries stay. If it
-- has expired, nothing is found, and the entry is out of the cache, unless it was in use. The cache
-- is good in each case.
pub lookup_entry-Answers :
    (host : Addr) (d : Dns) (entries : List Addr) (num : ℕ) (rotate : Bool)
    → Good (host_hash d) d.cache entries
    → 0 < d.cache.hash_size
    → ((e : Addr) → has e entries ≡ true → Filled (d.dns_data (d.cache.value e)))
    → (((x : Addr) → has x entries ≡ true → NotOf host d x)
        × ((lookup_entry host num rotate d).1 ≡ none)
        × Good (host_hash d) (lookup_entry host num rotate d).0.cache entries)
      ⊎ ((e : Addr) × Latest host d entries e
          × (let info = d.dns_data (d.cache.value e) in
              ((d.now ≤ info.expires)
                × ((r : List ℕ × ℕ) × ((lookup_entry host num rotate d).1 ≡ some r)
                    × Answers info.addrs (if rotate then info.cur else 0) num r)
                × (((lookup_entry host num rotate d).0.dns_data (d.cache.value e)).cur ≡ (
                    if num == 1 && rotate
                    then (if ltb (info.cur + 1) info.num_addrs then info.cur + 1 else 0)
                    else info.cur))
                × Good (host_hash d) (lookup_entry host num rotate d).0.cache entries)
              ⊎ ((info.expires < d.now)
                  × ((lookup_entry host num rotate d).1 ≡ none)
                  × Good
                      (host_hash d)
                      (lookup_entry host num rotate d).0.cache
                      (if d.cache.ref_count e == 0 then remove_link e entries else entries))))
lookup_entry-Answers host d entries num rotate good buckets filled =
    let e = entry_of host d entries in
    let test = matches (host_hash d) (same_host d) host d.cache in
    elim (lookup_entry-expires host d entries good buckets num rotate) [
      | inl (nobody, nothing, good') ↦ inl (
        λ x m. matches-NotOf host d x (first-none test entries good.hashed.real nobody x m),
        nothing,
        good',
      )
      | inr (inl (there, time, answered, good')) ↦
          let info = data_of host d entries in
          let full = filled e (first-found test entries there).0 in
          inr (
            e,
            found-Latest host d entries there,
            inl (
              time,
              (answer info num rotate, answered, answer-Answers info num rotate full),
              lookup_fresh-cur host d entries good buckets there num rotate time,
              good',
            ),
          )
      | inr (inr (there, time, nothing, good')) ↦
          inr (e, found-Latest host d entries there, inr (time, nothing, good'))
    ]

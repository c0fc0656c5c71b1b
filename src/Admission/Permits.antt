-- ===== src/Admission/Permits.antt =====
-- The limiter counts exactly the permits that live, and admits no more than its two bounds.
use sshoosh.Base.{
  ℕ, ◌+◌, ◌-◌, ◌≤◌, ◌≡◌, refl, sym, ap, ◌∙◌, inl, inr, Bool, true, false, Option, none, some, List,
  [], ◌∷◌, ◌++◌, ◌==◌, ==_iff, ==_refl, ◌&&◌, ltb, leb, arith, Bool-cases, Option-cases,
  if◌then◌else◌,
}
use mathlib.Core.Path.{subst}
use mathlib.Core.Option
use sshoosh.Base.Tables.{find, count, update_where, delete_where, upsert}
use sshoosh.Base.Tables.Find.{find-update_where, find-upsert_self, find-upsert_other, find_fits}
use sshoosh.Admission.{
  IpCount, AdmissionLimiter, is_ip, count_of_row, count_of, enter, try_acquire, release_row,
  release_ip, release, new_limiter,
}

-- The permits that live, listed by address, against the limiter's two counts.
pub record IsHeld (max_connections : ℕ) (held : List ℕ) (l : AdmissionLimiter) : Type 0 where
  pub total : l.global + count (λ h. true) held ≡ max_connections
  pub per_ip : (k : ℕ) → count_of k l.per_ip ≡ count (λ h. h == k) held
  pub bound : (k : ℕ) → count (λ h. h == k) held ≤ l.max_per_ip

module _ (k ip : ℕ) (rows : List IpCount) where
  count_of-enter : count_of k (enter ip rows) ≡ count_of k rows
  unfolding count_of enter is_ip
  count_of-enter = elim (Bool-cases (ip == k)) [
    | inl e ↦
        subst
          (λ j.
            count_of_row
              (find (is_ip k) (upsert (is_ip j) (record { ip = j; count = 0 }) (λ r. r) rows))
            ≡ count_of_row (find (is_ip k) rows))
          (sym ((==_iff ip k).0 e))
          (ap count_of_row (
              find-upsert_self (is_ip k) (record { ip = k; count = 0 }) (λ r. r) rows (λ r. refl)
                (==_refl k))
            ∙ same (find (is_ip k) rows))
    | inr e ↦
        ap count_of_row (
          find-upsert_other (is_ip k) (is_ip ip) _ (λ r. r) rows (λ r. refl) (λ r h. ground arith)
            e)
  ]
    where
      same :
          (o : Option IpCount)
          → count_of_row (elim o [ none ↦ some (record { ip = k; count = 0 }) | some r ↦ some r ])
            ≡ count_of_row o
      same none = refl
      same (some r) = refl

  count_of-update :
      (f : IpCount → IpCount)
      → ((r : IpCount) → (f r).ip ≡ r.ip)
      → count_of k (update_where (is_ip ip) f rows)
        ≡ (if ip == k then count_of_row (Option.map f (find (is_ip k) rows)) else count_of k rows)
  unfolding count_of is_ip
  count_of-update f keep = elim (Option-cases (find (is_ip k) rows)) [
    | inl d ↦ rw (count_of, found, d) (elim (Bool-cases (ip == k)) [ inl e ↦ rw e | inr e ↦ rw e ])
    | inr (r, d) ↦ elim (Bool-cases (ip == k)) [
      | inl e ↦ rw (count_of, found, d, e, fits r d e)
      | inr e ↦ rw (count_of, found, d, e, misses r d e)
    ]
  ]
    where
      found :
          find (is_ip k) (update_where (is_ip ip) f rows)
          ≡ Option.map (λ a. if is_ip ip a then f a else a) (find (is_ip k) rows)
      found = find-update_where (is_ip k) (is_ip ip) f rows (λ r. rw (keep r))

      fits : (r : IpCount) → find (is_ip k) rows ≡ some r → (ip == k) ≡ true → is_ip ip r ≡ true
      fits r d e = ground (arith, find_fits (is_ip k) rows r d)

      misses : (r : IpCount) → find (is_ip k) rows ≡ some r → (ip == k) ≡ false → is_ip ip r ≡ false
      misses r d e = ground (arith, find_fits (is_ip k) rows r d)

find-delete_where :
    (k ip : ℕ) (rows : List IpCount)
    → find (is_ip k) (delete_where (is_ip ip) rows)
      ≡ (if ip == k then none else find (is_ip k) rows)
unfolding find delete_where is_ip
find-delete_where k ip [] = elim (Bool-cases (ip == k)) [ inl e ↦ rw e | inr e ↦ rw e ]
find-delete_where k ip (r ∷ rows) = ground (arith, find-delete_where k ip rows)

module _ (k ip : ℕ) (rows : List IpCount) where
  count_of-bump :
      count_of k (update_where (is_ip ip) (λ r. record r { count = r.count + 1 }) (enter ip rows))
      ≡ (if ip == k then 1 else 0) + count_of k rows
  count_of-bump = elim (Bool-cases (ip == k)) [
    | inr e ↦
        count_of-update k ip (enter ip rows) _ (λ r. refl)
        ∙ rw e (omega (arith, count_of-enter k ip rows))
    | inl e ↦
        count_of-update k ip (enter ip rows) _ (λ r. refl)
        ∙ rw e (entered ((==_iff ip k).0 e) ∙ ap (λ n. 1 + n) (count_of-enter k ip rows))
  ]
    where
      found : find (is_ip ip) (enter ip rows) ≡ elim (find (is_ip ip) rows) [
        | none ↦ some (record { ip = ip; count = 0 })
        | some r ↦ some r
      ]
      found =
          unfold enter in
          find-upsert_self (is_ip ip) (record { ip = ip; count = 0 }) (λ r. r) rows (λ r. refl)
            (unfold is_ip in ==_refl ip)

      there :
          (o p : Option IpCount)
          → p ≡ elim o [ none ↦ some (record { ip = ip; count = 0 }) | some r ↦ some r ]
          → count_of_row (Option.map (λ (r : IpCount). record r { count = r.count + 1 }) p)
            ≡ 1 + count_of_row p
      there none p e = rw e (unfold count_of_row in refl)
      there (some r) p e = rw e (unfold count_of_row in omega arith)

      entered :
          ip ≡ k
          → count_of_row (
              Option.map
                (λ (r : IpCount). record r { count = r.count + 1 })
                (find (is_ip k) (enter ip rows)))
            ≡ 1 + count_of k (enter ip rows)
      entered e =
          subst
            (λ j.
              count_of_row (
                Option.map (λ (r : IpCount). record r { count = r.count + 1 })
                  (find (is_ip j) (enter ip rows)))
              ≡ 1 + count_of j (enter ip rows))
            e
            (unfold count_of in
              there (find (is_ip ip) rows) (find (is_ip ip) (enter ip rows)) found)

  count_of-release : count_of k (release_ip ip rows) ≡ count_of k rows - (if ip == k then 1 else 0)
  unfolding release_ip count_of
  count_of-release = elim (Option-cases (find (is_ip ip) rows)) [
    | inl d ↦ rw d (absent d)
    | inr (r, d) ↦ rw d (present r d)
  ]
    where
      here : ip ≡ k → count_of k rows ≡ count_of_row (find (is_ip ip) rows)
      here e =
          subst (λ j. count_of j rows ≡ count_of_row (find (is_ip ip) rows)) e
            (unfold count_of in refl)

      absent :
          find (is_ip ip) rows ≡ none
          → count_of k (release_row ip rows none) ≡ count_of k rows - (if ip == k then 1 else 0)
      absent d = elim (Bool-cases (ip == k)) [
        | inr e ↦ rw e (unfold release_row in omega arith)
        | inl e ↦ rw e (
            unfold release_row count_of_row in
            omega (arith, here ((==_iff ip k).0 e), ap count_of_row d))
      ]

      deleted : count_of k (delete_where (is_ip ip) rows) ≡ (if ip == k then 0 else count_of k rows)
      deleted = elim (Bool-cases (ip == k)) [
        | inl e ↦ rw (count_of, find-delete_where k ip rows, e) (unfold count_of_row in refl)
        | inr e ↦ rw (count_of, find-delete_where k ip rows, e) refl
      ]

      held :
          (r : IpCount)
          → find (is_ip ip) rows ≡ some r
          → (ip == k) ≡ true
          → count_of k rows ≡ r.count
      held r d e = here ((==_iff ip k).0 e) ∙ ap count_of_row d ∙ (unfold count_of_row in refl)

      lowered :
          (r : IpCount)
          → find (is_ip ip) rows ≡ some r
          → ip ≡ k
          → count_of_row
              (Option.map (λ (x : IpCount). record x { count = x.count - 1 }) (find (is_ip k) rows))
            ≡ count_of k rows - 1
      lowered r d e =
          subst
            (λ j.
              count_of_row (
                Option.map (λ (x : IpCount). record x { count = x.count - 1 })
                  (find (is_ip j) rows))
              ≡ count_of j rows - 1)
            e (rw (count_of, d) (unfold count_of_row in refl))

      present :
          (r : IpCount)
          → find (is_ip ip) rows ≡ some r
          → count_of k (release_row ip rows (some r)) ≡ count_of k rows - (if ip == k then 1 else 0)
      present r d = elim (Bool-cases (r.count - 1 == 0)) [
        | inl z ↦
            unfold release_row in
            rw z (
              deleted ∙ elim (Bool-cases (ip == k)) [
                | inl e ↦ rw e (ground (arith, z, held r d e))
                | inr e ↦ rw e (omega arith)
              ])
        | inr z ↦
            unfold release_row in
            rw z (
              count_of-update k ip rows _ (λ x. refl) ∙ elim (Bool-cases (ip == k)) [
                | inl e ↦ rw e (lowered r d ((==_iff ip k).0 e))
                | inr e ↦ rw e (omega arith)
              ])
      ]

-- A permit that is listed somewhere counts once.
count-permit :
    (p : ℕ → Bool) (earlier : List ℕ) (ip : ℕ) (later : List ℕ)
    → count p (earlier ++ ip ∷ later) ≡ (if p ip then 1 else 0) + count p (earlier ++ later)
unfolding count
count-permit p [] ip later = refl
count-permit p (h ∷ earlier) ip later = omega (arith, count-permit p earlier ip later)

-- An attempt keeps the counts, with the new permit listed if one was given: no more permits live
-- than connections are allowed, and none beyond the bound of an address.
pub try_acquire-IsHeld :
    (max_connections ip : ℕ) (held : List ℕ) (l : AdmissionLimiter)
    → IsHeld max_connections held l
    → IsHeld max_connections (if (try_acquire ip l).0 then ip ∷ held else held) (try_acquire ip l).1
unfolding try_acquire
try_acquire-IsHeld m ip held l h = elim (Bool-cases (l.global == 0)) [
  | inl e ↦ rw e h
  | inr e ↦ elim (Bool-cases (leb l.max_per_ip (count_of ip (enter ip l.per_ip)))) [
    | inl d ↦
        rw (e, d)
          (record {
            total = h.total;
            per_ip = λ k. count_of-enter k ip l.per_ip ∙ h.per_ip k;
            bound = h.bound;
          })
    | inr d ↦
        rw (e, d)
          (record {
            total = unfold count in ground (arith, h.total);
            per_ip = λ k. unfold count in ground (arith, count_of-bump k ip l.per_ip, h.per_ip k);
            bound = λ k. bound_after k e d;
          })
  ]
]
  where
    bound_after :
        (k : ℕ)
        → (l.global == 0) ≡ false
        → leb l.max_per_ip (count_of ip (enter ip l.per_ip)) ≡ false
        → count (λ x. x == k) (ip ∷ held) ≤ l.max_per_ip
    bound_after k e d = elim (Bool-cases (ip == k)) [
      | inl c ↦
          subst (λ j. count (λ x. x == j) (ip ∷ held) ≤ l.max_per_ip) ((==_iff ip k).0 c)
            (unfold count in
              ground (arith, ==_refl ip, count_of-enter ip ip l.per_ip, h.per_ip ip, d))
      | inr c ↦ unfold count in ground (arith, h.bound k)
    ]

-- Dropping any permit that lives keeps the counts, without it in the list.
pub release-IsHeld :
    (max_connections : ℕ) (earlier : List ℕ) (ip : ℕ) (later : List ℕ) (l : AdmissionLimiter)
    → IsHeld max_connections (earlier ++ ip ∷ later) l
    → IsHeld max_connections (earlier ++ later) (release ip l)
unfolding release
release-IsHeld m earlier ip later l h = record {
  total = omega (arith, h.total, count-permit (λ x. true) earlier ip later);
  per_ip = λ k. ground (
    arith,
    count_of-release k ip l.per_ip,
    h.per_ip k,
    count-permit (λ x. x == k) earlier ip later,
  );
  bound = λ k. ground (arith, h.bound k, count-permit (λ x. x == k) earlier ip later);
}

-- An attempt succeeds exactly if fewer permits live than connections are allowed, and fewer of the
-- address than an address may have.
pub try_acquire-admits :
    (max_connections ip : ℕ) (held : List ℕ) (l : AdmissionLimiter)
    → IsHeld max_connections held l
    → (try_acquire ip l).0 ≡ (
        ltb (count (λ h. true) held) max_connections
        && ltb (count (λ h. h == ip) held) l.max_per_ip)
unfolding try_acquire
try_acquire-admits m ip held l h = elim (Bool-cases (l.global == 0)) [
  | inl e ↦ rw e (ground (arith, h.total))
  | inr e ↦ elim (Bool-cases (leb l.max_per_ip (count_of ip (enter ip l.per_ip)))) [
    | inl d ↦ rw (e, d) (ground (arith, h.total, count_of-enter ip ip l.per_ip, h.per_ip ip))
    | inr d ↦ rw (e, d) (ground (arith, h.total, count_of-enter ip ip l.per_ip, h.per_ip ip))
  ]
]

-- A limiter that has admitted nobody.
pub new-IsHeld :
    (max_connections max_per_ip : ℕ)
    → IsHeld max_connections [] (new_limiter max_connections max_per_ip)
unfolding new_limiter count_of find count
new-IsHeld m p = record { total = omega arith; per_ip = λ k. refl; bound = λ k. omega arith }

-- ===== src/Abuse/Burst.antt =====
-- A burst of failed logins from an address is penalised.
use sshoosh.Base.{
  ℕ, ◌+◌, ◌-◌, ◌≤◌, ◌<◌, ◌≡◌, refl, sym, ap, ◌∙◌, inl, inr, ◌⊎◌, Bool, true, false, ◌||◌, Option,
  none, some, List, [], ◌∷◌, ◌==◌, ==_refl, leb, ltb, arith, Bool-cases, Option-cases,
  if◌then◌else◌,
}
use mathlib.Core.Path.{subst}
use sshoosh.Base.Tables.{All, find, count, upsert}
use sshoosh.Base.Tables.Find.{find-update_where, find-append, find-upsert_self, find_fits}
use sshoosh.Text.{Text, text_eq}
use sshoosh.Abuse.{
  FailureKey, FailureBucket, AuthAbuseLimiter, ip_key, composite, has_key, usize_max,
  saturating_succ, open_bucket, bump_bucket, bump_key, reached, record_failure, penalize, remaining,
  penalty_remaining,
}

-- A failed login.
pub record Attempt : Type 0 where
  pub now : ℕ
  pub username : Text
  pub key_fp : Option Text

-- Until then the address is penalised, with the time that is left; from then on it is not.
abbrev pub IsBlocked : ℕ → ℕ → AuthAbuseLimiter → Type 0
IsBlocked ip until l =
    (t : ℕ) → (penalty_remaining t ip l).0 ≡ (if ltb t until then some (until - t) else none)

-- One of the failures of the address, recorded one after the other, is penalised: `record_failure`
-- says so, and blocks the address for the time of a penalty.
pub data IsPenalized (ip penalty : ℕ) : List Attempt → AuthAbuseLimiter → Type 0 where
  at_once :
      {a : Attempt} {rest : List Attempt} {l : AuthAbuseLimiter}
      → (record_failure a.now (some ip) a.username a.key_fp l).0 ≡ true
      → IsBlocked ip (a.now + penalty) (record_failure a.now (some ip) a.username a.key_fp l).1
      → IsPenalized ip penalty (a ∷ rest) l
  at_another :
      {a : Attempt} {rest : List Attempt} {l : AuthAbuseLimiter}
      → IsPenalized ip penalty rest (record_failure a.now (some ip) a.username a.key_fp l).1
      → IsPenalized ip penalty (a ∷ rest) l

penalize-IsBlocked :
    (now ip : ℕ) (rows : List FailureBucket) (l : AuthAbuseLimiter)
    → IsBlocked ip (now + l.penalty) (penalize now ip rows l)
unfolding penalty_remaining penalize remaining
penalize-IsBlocked now ip rows l t = elim (Option-cases (find (λ p. p.ip == ip) l.penalties)) [
  | inl e ↦
      rw (inserted, e)
        (elim (Bool-cases (ltb t (now + l.penalty))) [ inl d ↦ rw d refl | inr d ↦ rw d refl ])
  | inr (p, e) ↦
      rw (inserted, e)
        (elim (Bool-cases (ltb t (now + l.penalty))) [ inl d ↦ rw d refl | inr d ↦ rw d refl ])
]
  where
    inserted :
        find
          (λ p. p.ip == ip)
          (upsert
            (λ p. p.ip == ip)
            (record { ip = ip; until = now + l.penalty })
            (λ p. record p { until = now + l.penalty })
            l.penalties)
        ≡ elim (find (λ p. p.ip == ip) l.penalties) [
          | none ↦ some (record { ip = ip; until = now + l.penalty })
          | some p ↦ some (record p { until = now + l.penalty })
        ]
    inserted = find-upsert_self (λ p. p.ip == ip) _ _ l.penalties (λ p. refl) (==_refl ip)

record_failure-IsBlocked :
    (ip : ℕ) (a : Attempt) (l : AuthAbuseLimiter)
    → (record_failure a.now (some ip) a.username a.key_fp l).0 ≡ true
    → IsBlocked ip (a.now + l.penalty) (record_failure a.now (some ip) a.username a.key_fp l).1
unfolding record_failure
record_failure-IsBlocked ip a l h = rw h (penalize-IsBlocked a.now ip _ l)

-- The row's window started then, and it has counted so many failures.
record IsAt (start c : ℕ) (row : FailureBucket) : Type 0 where
  pub started : row.window_started ≡ start
  pub enough : c ≤ row.count

module _ (start window : ℕ) where
  -- In its window a failure is counted, unless the count is at its end.
  bump_bucket-IsAt :
      (now c : ℕ) (row : FailureBucket)
      → now - start ≤ window
      → IsAt start c row
      → c < usize_max
      → IsAt start (c + 1) (bump_bucket now window row)
  unfolding bump_bucket
  bump_bucket-IsAt now c row within at bound =
      rw (at.started, in_window)
        (record { started = refl; enough = succ_enough row.count at.enough })
    where
      in_window : ltb window (now - start) ≡ false
      in_window = ground arith

      succ_enough : (n : ℕ) → c ≤ n → c + 1 ≤ saturating_succ n
      succ_enough n h = unfold saturating_succ in ground arith

  bump_bucket-kept :
      (now c : ℕ) (row : FailureBucket)
      → now - start ≤ window
      → IsAt start c row
      → IsAt start c (bump_bucket now window row)
  unfolding bump_bucket
  bump_bucket-kept now c row within at =
      rw (at.started, in_window)
        (record { started = refl; enough = succ_enough row.count at.enough })
    where
      in_window : ltb window (now - start) ≡ false
      in_window = ground arith

      succ_enough : (n : ℕ) → c ≤ n → c ≤ saturating_succ n
      succ_enough n h = unfold saturating_succ in ground arith

module _ (now window : ℕ) (key : FailureKey) (p : FailureBucket → Bool) (rows : List FailureBucket)
    (row : FailureBucket) where
  -- A row that stands stays the first that fits when another key is entered.
  find-open_bucket : find p rows ≡ some row → find p (open_bucket now key rows) ≡ some row
  unfolding open_bucket upsert
  find-open_bucket h = elim (Option-cases (find (has_key key) rows)) [
    | inl e ↦ rw e (find-append p rows _ ∙ rw h)
    | inr (a, e) ↦ rw e (
        find-update_where p (has_key key) (λ r. r) rows (λ r. refl)
        ∙ rw h (elim (Bool-cases (has_key key row)) [ inl d ↦ rw d | inr d ↦ rw d ]))
  ]

module _ (start window limit penalty ip : ℕ) where
  -- The bucket of the address stands in the burst's window, with so many failures.
  abbrev IsCounting : ℕ → List FailureBucket → Type 0
  IsCounting c rows =
      (row : FailureBucket) × (find (has_key (ip_key ip)) rows ≡ some row) × IsAt start c row

  find-bump_key :
      (now : ℕ) (key : FailureKey) (rows : List FailureBucket) (row : FailureBucket)
      → find (has_key (ip_key ip)) (open_bucket now key rows) ≡ some row
      → find (has_key (ip_key ip)) (bump_key now window key rows)
        ≡ some (if has_key key row then bump_bucket now window row else row)
  unfolding bump_key
  find-bump_key now key rows row h =
      find-update_where (has_key (ip_key ip)) (has_key key) (bump_bucket now window)
        (open_bucket now key rows) same_key
      ∙ rw h refl
    where
      same_key :
          (r : FailureBucket)
          → has_key (ip_key ip) (bump_bucket now window r) ≡ has_key (ip_key ip) r
      same_key r =
          unfold bump_bucket in
          unfold has_key in
          elim (Bool-cases (ltb window (now - r.window_started))) [
            | inl e ↦ rw e refl
            | inr e ↦ rw e refl
          ]

  -- The failure of the address is counted,
  counted-IsCounting :
      (now c : ℕ) (rows : List FailureBucket) (row : FailureBucket)
      → now - start ≤ window
      → c < usize_max
      → find (has_key (ip_key ip)) (open_bucket now (ip_key ip) rows) ≡ some row
      → IsAt start c row
      → IsCounting (c + 1) (bump_key now window (ip_key ip) rows)
  counted-IsCounting now c rows row within bound h at = (
    bump_bucket now window row,
    find-bump_key now (ip_key ip) rows row h ∙ rw (find_fits (has_key (ip_key ip)) _ row h) refl,
    bump_bucket-IsAt start window now c row within at bound,
  )

  -- and stays counted whatever other key is counted after it.
  kept-IsCounting :
      (now c : ℕ) (key : FailureKey) (rows : List FailureBucket)
      → now - start ≤ window
      → IsCounting c rows
      → IsCounting c (bump_key now window key rows)
  kept-IsCounting now c key rows within (row, h, at) = (
    (if has_key key row then bump_bucket now window row else row),
    find-bump_key now key rows row
        (find-open_bucket now window key (has_key (ip_key ip)) rows row h),
    elim (Bool-cases (has_key key row)) [
      | inl e ↦ rw e (bump_bucket-kept start window now c row within at)
      | inr e ↦ rw e at
    ],
  )

  fewer :
      (c : ℕ) (found : Option FailureBucket) (row : FailureBucket)
      → found ≡ some row
      → IsAt start c row
      → reached limit found ≡ false
      → c < limit
  unfolding reached
  fewer c found row e at f =
      let below : leb limit row.count ≡ false = sym (ap (reached limit) e) ∙ f in
      let many = at.enough in ground arith

  decided :
      (c : ℕ) (by_ip by_both : Bool) (l : AuthAbuseLimiter) (rows : List FailureBucket)
      (penalized : AuthAbuseLimiter)
      → (by_ip ≡ false → c < limit)
      → IsCounting c rows
      → l.failure_window ≡ window
      → l.failures_before_penalty ≡ limit
      → l.penalty ≡ penalty
      → let after : AuthAbuseLimiter =
          if by_ip || by_both then penalized else record l { failures = rows } in
        ((by_ip || by_both) ≡ true)
        ⊎ (c < limit)
          × IsCounting c after.failures
          × (after.failure_window ≡ window)
          × (after.failures_before_penalty ≡ limit)
          × (after.penalty ≡ penalty)
  decided c true by_both l rows penalized below counting w n p = inl refl
  decided c false true l rows penalized below counting w n p = inl refl
  decided c false false l rows penalized below counting w n p = inr (below refl, counting, w, n, p)

  -- A failure in the burst is penalised, or it is counted and there were fewer than the limit.
  record_failure-IsCounting :
      (a : Attempt) (c : ℕ) (l : AuthAbuseLimiter) (row : FailureBucket)
      → l.failure_window ≡ window
      → l.failures_before_penalty ≡ limit
      → l.penalty ≡ penalty
      → a.now - start ≤ window
      → c < usize_max
      → find (has_key (ip_key ip)) (open_bucket a.now (ip_key ip) l.failures) ≡ some row
      → IsAt start c row
      → let result = record_failure a.now (some ip) a.username a.key_fp l in
        (result.0 ≡ true)
        ⊎ (c + 1 < limit)
          × IsCounting (c + 1) result.1.failures
          × (result.1.failure_window ≡ window)
          × (result.1.failures_before_penalty ≡ limit)
          × (result.1.penalty ≡ penalty)
  unfolding record_failure
  record_failure-IsCounting a c l row same_window same_limit same_penalty within bound h at =
      let (r, e, counted) = by_ip in
      decided (c + 1) _ _ l _ _ (λ f. fewer (c + 1) _ r e counted (rw (← same_limit) f))
        (rw same_window (
          kept-IsCounting a.now (c + 1) (composite ip a.username a.key_fp) _ within
            (rw (← same_window) by_ip)))
        same_window same_limit same_penalty
    where
      by_ip : IsCounting (c + 1) (bump_key a.now l.failure_window (ip_key ip) l.failures)
      by_ip = rw same_window (counted-IsCounting a.now c l.failures row within bound h at)

  -- The rest of a burst.
  others_lem :
      (attempts : List Attempt) (c : ℕ) (l : AuthAbuseLimiter)
      → l.failure_window ≡ window
      → l.failures_before_penalty ≡ limit
      → l.penalty ≡ penalty
      → All (λ a. a.now - start ≤ window) attempts
      → limit ≤ usize_max
      → c < limit
      → limit ≤ c + count (λ a. true) attempts
      → IsCounting c l.failures
      → IsPenalized ip penalty attempts l
  unfolding count
  others_lem [] c l w n p within bound below enough counting = absurd (ground arith)
  others_lem (a ∷ rest) c l w n p (now, later) bound below enough (row, h, at) =
      elim (record_failure-IsCounting a c l row w n p now (ground arith)
        (find-open_bucket a.now window (ip_key ip) (has_key (ip_key ip)) l.failures row h) at) [
          | inl e ↦ at_once e (
              subst
                (λ k.
                  IsBlocked ip (a.now + k) (record_failure a.now (some ip) a.username a.key_fp l).1)
                p (record_failure-IsBlocked ip a l e))
          | inr (fewer_still, counting, w, n, p) ↦
              at_another
                (others_lem rest (c + 1) _ w n p later bound fewer_still (ground arith) counting)
        ]

module _ (ip : ℕ) (a : Attempt) (rest : List Attempt) (l : AuthAbuseLimiter) where
  -- With no failure of the address on record, as many failures of it as the limit allows for, all
  -- within the window of the first, are penalised at one of them, whatever the usernames and keys:
  -- from the time of that failure `penalty_remaining` gives what is left of the penalty, until that
  -- has passed.
  pub record_failure-IsPenalized :
      find (has_key (ip_key ip)) l.failures ≡ none
      → All (λ b. b.now - a.now ≤ l.failure_window) rest
      → l.failures_before_penalty ≤ usize_max
      → l.failures_before_penalty ≤ 1 + count (λ b. true) rest
      → IsPenalized ip l.penalty (a ∷ rest) l
  record_failure-IsPenalized fresh within bound enough =
      elim (record_failure-IsCounting a.now l.failure_window l.failures_before_penalty l.penalty ip
        a 0 l _ refl refl refl (ground arith) (ground arith) opened
        record { started = refl; enough = ground arith }) [
          | inl e ↦ at_once e (record_failure-IsBlocked ip a l e)
          | inr (fewer_still, counting, w, n, p) ↦ at_another (
              others_lem a.now l.failure_window l.failures_before_penalty l.penalty ip rest 1 _ w n
                p within bound fewer_still enough counting)
        ]
    where
      opened :
          find (has_key (ip_key ip)) (open_bucket a.now (ip_key ip) l.failures)
          ≡ some record { key = ip_key ip; window_started = a.now; count = 0 }
      opened =
          unfold open_bucket in
          unfold upsert in
          rw fresh (
            find-append (has_key (ip_key ip)) l.failures _
            ∙ rw fresh (unfold has_key in unfold text_eq in rw (==_refl ip) refl))

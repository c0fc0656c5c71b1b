-- ===== src/Sample/Admission.antt =====
-- Two connections at most, one for an address.
use sshoosh.Base.{ℕ, List, true, ◌≡◌, ◌&&◌, ltb, [], ◌∷◌, ◌==◌}
use sshoosh.Base.Tables.{count, find, upsert}
use sshoosh.Admission.{AdmissionLimiter, try_acquire, release, new_limiter, count_of, enter}
use sshoosh.Admission.Permits.{
  IsHeld, new-IsHeld, try_acquire-IsHeld, try_acquire-admits, release-IsHeld,
}

-- The permits that live: one of the address 5.
abbrev living : List ℕ
living = 5 ∷ []

abbrev limiter : AdmissionLimiter
limiter = new_limiter 2 1

new_limiter-IsHeld : IsHeld 2 [] limiter
new_limiter-IsHeld = new-IsHeld 2 1

acquired-IsHeld : IsHeld 2 (5 ∷ []) (try_acquire 5 limiter).1
unfolding try_acquire new_limiter count_of find enter upsert
acquired-IsHeld = try_acquire-IsHeld 2 5 [] limiter (new-IsHeld 2 1)

-- The address has its one connection.
admits_example : (try_acquire 5 (try_acquire 5 limiter).1).0 ≡ (
    ltb (count (λ h. true) living) 2
    && ltb (count (λ h. h == 5) living) (try_acquire 5 limiter).1.max_per_ip)
admits_example = try_acquire-admits 2 5 living (try_acquire 5 limiter).1 acquired-IsHeld

released-IsHeld : IsHeld 2 [] (release 5 (try_acquire 5 limiter).1)
released-IsHeld = release-IsHeld 2 [] 5 [] (try_acquire 5 limiter).1 acquired-IsHeld

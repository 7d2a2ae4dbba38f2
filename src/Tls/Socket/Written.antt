-- ===== src/Tls/Socket/Written.antt =====
-- `write_with`: which bytes the session has been given when it answers `Ok`.
use espbewi.Common.{
  ℕ, ◌≤◌, ◌≡◌, refl, ap, ◌∙◌, sym, List, [], ◌∷◌, ◌++◌, arith, take, length, length-take,
  length-append,
}
use espbewi.Common.Result.{ok}
use espbewi.Tls.Socket.{SessionApi, buffer_size, write_with}

take_all : {A : Type 0} → (xs : List A) → take (length xs) xs ≡ xs
take_all [] = refl
take_all (x ∷ xs) = ap (λ ys. x ∷ ys) (take_all xs)

append-take_all :
    {A : Type 0}
    → (n : ℕ) (xs ys : List A) → n ≤ length ys
    → xs ++ take n ys ≡ xs ++ ys
    → n ≡ length ys
append-take_all n xs ys bound e =
    omega (
      arith,
      ap length e,
      length-append xs (take n ys),
      length-append xs ys,
      length-take n ys,
      bound,
    )

-- The session's documented behaviour: a write that answers `n` has sent the first `n` bytes.
abbrev pub Sends : {S E : Type 0} → SessionApi S E → (S → List ℕ) → Type 0
Sends {S = S} api sent =
    (bytes : List ℕ) (s : S) (n : ℕ)
    → (api.session_write bytes s).0 ≡ ok n
    → (n ≤ length bytes) × (sent (api.session_write bytes s).1 ≡ sent s ++ take n bytes)

-- Where the session takes `n` of the bytes that `f` filled, `write_with` answers the output of `f`,
-- and only those `n` bytes are sent: all of them are exactly if `n` is their number. There is no
-- second write, so a shorter one loses the rest with `Ok`.
pub write_with-take :
    {S E R : Type 0}
    → (api : SessionApi S E) (sent : S → List ℕ) → Sends api sent
    → (f : ℕ → List ℕ × R) (s : S) (n : ℕ) → (api.session_write (f buffer_size).0 s).0 ≡ ok n
    → let filled = (f buffer_size).0 in
      let (r, s') = write_with api f s in
      (r ≡ ok (f buffer_size).1)
      × (sent s' ≡ sent s ++ take n filled)
      × ((sent s' ≡ sent s ++ filled → n ≡ length filled)
          × (n ≡ length filled → sent s' ≡ sent s ++ filled))
unfolding write_with
write_with-take api sent sends f s n h =
    let (filled, output) = f buffer_size in
    let (bound, e) = sends filled s n h in
    rw h (
      refl,
      e,
      (
        λ all. append-take_all n (sent s) filled bound (sym e ∙ all),
        λ same. e ∙ rw same (ap (λ xs. sent s ++ xs) (take_all filled)),
      ),
    )

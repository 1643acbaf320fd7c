-- ===== src/Core/Cookie/Accepts.antt =====
-- Which cookies an authority accepts.
use shph.Prelude.{
  ℕ, ◌+◌, ◌-◌, ◌/◌, ◌≤◌, ◌≡◌, ◌⊎◌, inl, inr, refl, sym, ap, ◌∙◌, Bool, true, some, List, length,
  any, leb, ◌==◌, arith, Result, ok, err, ShphError, bytes_eq, bytes_eq_refl, bytes_eq→eq,
  Bool-cases, Result-cases,
}
use shph.Core.ConstantTime.{constant_time_diff, constant_time_decides}
use shph.Core.Cookie.{
  SocketAddr, StatelessCookieAuthority, epoch_of, rotate_to, mac, issue, candidates, verified,
  verify,
}

matches :
    (cookie expected : List ℕ)
    → (constant_time_diff cookie expected == 0) ≡ bytes_eq cookie expected
matches cookie expected = (constant_time_decides cookie expected).1

same_matches :
    (cookie expected : List ℕ)
    → cookie ≡ expected
    → (constant_time_diff cookie expected == 0) ≡ true
same_matches cookie expected e =
    matches cookie expected ∙ ap (bytes_eq cookie) (sym e) ∙ bytes_eq_refl cookie

module _ (hmac : List ℕ → List ℕ → List ℕ) where
  hit : ℕ → SocketAddr → List ℕ → List ℕ → Bool
  hit epoch peer cookie secret = constant_time_diff cookie (mac hmac secret peer epoch) == 0

  hit-eq :
      (epoch : ℕ) (peer : SocketAddr) (cookie secret : List ℕ)
      → hit epoch peer cookie secret ≡ true
      → cookie ≡ mac hmac secret peer epoch
  unfolding hit
  hit-eq epoch peer cookie secret h =
      bytes_eq→eq cookie (mac hmac secret peer epoch)
        (sym (matches cookie (mac hmac secret peer epoch)) ∙ h)

  -- One of the four tags.
  any-candidates :
      (a : StatelessCookieAuthority) (peer : SocketAddr) (cookie : List ℕ) (epoch : ℕ)
      → any (λ expected. constant_time_diff cookie expected == 0) (candidates hmac a peer epoch)
        ≡ true
      → (secret : List ℕ) × (at : ℕ) × ((secret ≡ a.current_secret) ⊎ (secret ≡ a.previous_secret))
        × ((at ≡ epoch) ⊎ (at ≡ epoch - 1))
        × (cookie ≡ mac hmac secret peer at)
  unfolding hit candidates
  any-candidates a peer cookie epoch h =
      elim (Bool-cases (hit epoch peer cookie a.current_secret)) [
        | inl one ↦ (_, _, inl refl, inl refl, hit-eq epoch peer cookie a.current_secret one)
        | inr no_one ↦ elim (Bool-cases (hit (epoch - 1) peer cookie a.current_secret)) [
          | inl two ↦
              (_, _, inl refl, inr refl, hit-eq (epoch - 1) peer cookie a.current_secret two)
          | inr no_two ↦ elim (Bool-cases (hit epoch peer cookie a.previous_secret)) [
            | inl three ↦
                (_, _, inr refl, inl refl, hit-eq epoch peer cookie a.previous_secret three)
            | inr no_three ↦ (
              _,
              _,
              inr refl,
              inr refl,
              hit-eq (epoch - 1) peer cookie a.previous_secret
                  (ground (arith, no_one, no_two, no_three, h)),
            )
          ]
        ]
      ]

  verified_ok :
      (peer : SocketAddr) (cookie : List ℕ) (epoch : ℕ)
      (r : StatelessCookieAuthority × Result ShphError (Unit {0}))
      {after : StatelessCookieAuthority}
      → verified hmac peer cookie epoch r ≡ (after, ok true)
      → any (λ expected. constant_time_diff cookie expected == 0) (candidates hmac after peer epoch)
        ≡ true
  verified_ok peer cookie epoch (a, ok u) {after} e =
      let same : a ≡ after = ap (λ t. t.0) e in
      let yes : any (λ expected. constant_time_diff cookie expected == 0)
            (candidates hmac a peer epoch)
          ≡ true =
        ground (arith, e) in
      ap
        (λ t.
          any (λ expected. constant_time_diff cookie expected == 0) (candidates hmac t peer epoch))
        (sym same)
      ∙ yes
  verified_ok peer cookie epoch (a, err x) e = absurd (ground (arith, e))

  -- A cookie is accepted only if it is the tag of this peer under the current or the previous secret, for
  -- the epoch of the clock or the one before it.
  pub verify_sound :
      (a : StatelessCookieAuthority) (peer : SocketAddr) (cookie : List ℕ) (seconds : ℕ)
      (fresh : Result ShphError (List ℕ)) {after : StatelessCookieAuthority}
      → verify hmac a peer cookie (some seconds) fresh ≡ (after, ok true)
      → (secret : List ℕ) × (epoch : ℕ) × ((secret ≡ after.current_secret)
          ⊎ (secret ≡ after.previous_secret))
        × ((epoch ≡ seconds / 30) ⊎ (epoch ≡ seconds / 30 - 1))
        × (cookie ≡ mac hmac secret peer epoch)
  unfolding verify epoch_of
  verify_sound a peer cookie seconds fresh {after} e =
      any-candidates after peer cookie (seconds / 30) (
        verified_ok peer cookie (seconds / 30) (rotate_to a (seconds / 30) fresh)
          (ground (arith, e)))

  issue-cookie :
      (a : StatelessCookieAuthority) (peer : SocketAddr) (before : ℕ)
      (fresh : Result ShphError (List ℕ)) {after : StatelessCookieAuthority} {cookie : List ℕ}
      → issue hmac a peer (some before) fresh ≡ (after, ok cookie)
      → (cookie ≡ mac hmac after.current_secret peer (before / 30))
        × (before / 30 ≤ after.current_epoch)
  unfolding issue epoch_of rotate_to
  issue-cookie a peer before fresh {after} {cookie} e =
      elim (Bool-cases (leb (before / 30) a.current_epoch)) [
        | inl kept ↦ ground (arith, kept)
        | inr later ↦ elim (Result-cases fresh) [
          | inl (secret, drawn) ↦ ground (arith, later, drawn)
          | inr (x, failed) ↦ absurd (ground (arith, later, failed))
        ]
      ]

  module _ (sized : (key message : List ℕ) → length (hmac key message) ≡ 32) where
    tag_length :
        (peer : SocketAddr) (epoch : ℕ) (secret : List ℕ) → length (mac hmac secret peer epoch) ≡ 32
    unfolding mac
    tag_length peer epoch secret = sized secret _

    -- With tags of 32 bytes: a cookie issued to a peer is accepted from that peer for the rest of its epoch
    -- and all of the next, when the verification is the authority's next call and its generator of random
    -- bytes does not fail, whether or not the secret rotates there.
    pub verify-issue :
        (a : StatelessCookieAuthority) (peer : SocketAddr) (before later : ℕ) (secret : List ℕ)
        (fresh : Result ShphError (List ℕ)) {after : StatelessCookieAuthority} {cookie : List ℕ}
        → issue hmac a peer (some before) fresh ≡ (after, ok cookie)
        → before ≤ later
        → later / 30 ≤ before / 30 + 1
        → (verify hmac after peer cookie (some later) (ok secret)).1 ≡ ok true
    unfolding verify epoch_of candidates rotate_to
    verify-issue a peer before later secret fresh {after} {cookie} e order recent =
        let (made, known) = issue-cookie a peer before fresh e in
        let long : length cookie ≡ 32 =
          ap length made ∙ tag_length peer (before / 30) after.current_secret in
        let own : (at : ℕ)
            → at ≡ before / 30
            → (constant_time_diff cookie (mac hmac after.current_secret peer at) == 0) ≡ true =
          λ at t.
            same_matches cookie (mac hmac after.current_secret peer at)
              (made ∙ ap (mac hmac after.current_secret peer) (sym t)) in
        elim (Bool-cases (later / 30 == before / 30)) [
          | inl now ↦ ground (arith, long, known, own (later / 30) (ground (arith, now)))
          | inr next ↦
              ground (arith, long, own (later / 30 - 1) (ground (arith, next, order, recent)))
        ]

-- ===== src/Core/Window/Replay.antt =====
-- No counter is accepted twice, and a counter above all earlier ones is always accepted.
use shph.Prelude.{ℕ, ◌≤◌, ◌<◌, ◌≡◌, refl, ◌∙◌, Bool, true, false, List, [], ◌∷◌, arith, subst, All}
use shph.Core.Window.{ReplayWindow, new, check_and_insert}
use shph.Core.Window.History.{contains, newest, accepts}
use shph.Core.Window.Refine.{Represents, new-Represents, check_and_insert-Agrees, recorded}

-- The window after a sequence of counters, whatever the verdicts.
unfoldable pub after : ReplayWindow → List ℕ → ReplayWindow
after w [] = w
after w (n ∷ ns) = after (check_and_insert w n).0 ns

pub contains-recorded :
    (seen : List ℕ) (m n : ℕ) (fresh : Bool)
    → contains seen n ≡ true
    → contains (recorded seen m fresh) n ≡ true
unfolding contains
contains-recorded seen m n true h = ground arith
contains-recorded seen m n false h = h

recorded_bounded :
    (seen : List ℕ) (n bound : ℕ) (fresh : Bool)
    → n < bound
    → ((m : ℕ) → contains seen m ≡ true → m < bound)
    → (m : ℕ) → contains (recorded seen n fresh) m ≡ true
    → m < bound
unfolding contains
recorded_bounded seen n bound true h all m c = ground (arith, all m)
recorded_bounded seen n bound false h all m c = all m c

-- Some history stands behind every window reached, and it only grows.
abbrev Grown : ReplayWindow → List ℕ → List ℕ → ReplayWindow → Type 0
Grown w seen ns w' =
    (seen' : List ℕ) × Represents w' seen'
    × ((n : ℕ) → contains seen n ≡ true → contains seen' n ≡ true)
    × (w'.size ≡ w.size)
    × ((bound : ℕ)
        → ((m : ℕ) → contains seen m ≡ true → m < bound)
        → All (λ m. m < bound) ns
        → (m : ℕ) → contains seen' m ≡ true
        → m < bound)

after-Grown :
    (w : ReplayWindow) (seen ns : List ℕ) → Represents w seen → Grown w seen ns (after w ns)
unfolding after
after-Grown w seen [] r = (seen, r, λ n h. h, refl, λ bound h all. h)
after-Grown w seen (n ∷ ns) r =
    let (w', fresh) = check_and_insert w n in
    let (same, next, width) = check_and_insert-Agrees w seen n r in
    let (seen', r', keeps, width', from) = after-Grown w' (recorded seen n fresh) ns next in
    (
      seen',
      r',
      λ m h. keeps m (contains-recorded seen n m fresh h),
      width' ∙ width,
      λ bound h all. from bound (recorded_bounded seen n bound fresh all.0 h) all.1,
    )

-- A counter that the window has in its history is refused.
pub refuse_seen :
    (w : ReplayWindow) (seen : List ℕ) (n : ℕ)
    → Represents w seen
    → contains seen n ≡ true
    → (check_and_insert w n).1 ≡ false
unfolding accepts
refuse_seen w seen n r h = (check_and_insert-Agrees w seen n r).0 ∙ ground arith

-- Once a window made for any size has accepted a counter, it refuses that counter ever after,
-- whatever came before and whatever comes between.
pub replay_refused :
    (size n : ℕ) (before between : List ℕ)
    → (check_and_insert (after (new size) before) n).1 ≡ true
    → (check_and_insert (after (check_and_insert (after (new size) before) n).0 between) n).1
      ≡ false
replay_refused size n before between accepted =
    let (seen, r, keeps, width, from) = after-Grown (new size) [] before (new-Represents size) in
    let w : ReplayWindow = after (new size) before in
    let (same, next, width_now) = check_and_insert-Agrees w seen n r in
    let next' : Represents (check_and_insert w n).0 (n ∷ seen) =
      subst (λ b. Represents (check_and_insert w n).0 (recorded seen n b)) accepted next in
    let (seen', r', keeps', width', from') =
      after-Grown (check_and_insert w n).0 (n ∷ seen) between next' in
    refuse_seen (after (check_and_insert w n).0 between) seen' n r'
      (keeps' n (unfold contains in ground arith))

newest_bounded :
    (seen : List ℕ) (bound : ℕ)
    → ((m : ℕ) → contains seen m ≡ true → m < bound)
    → newest seen ≤ bound
unfolding contains newest
newest_bounded [] bound h = omega arith
newest_bounded (m ∷ seen) bound h =
    ground (arith, h m, newest_bounded seen bound (λ k c. h k (ground arith)))

-- A window made for any size accepts a counter above every one that it was shown before.
pub newer_accepted :
    (size n : ℕ) (before : List ℕ)
    → All (λ m. m < n) before
    → (check_and_insert (after (new size) before) n).1 ≡ true
unfolding accepts
newer_accepted size n before lower =
    let (seen, r, keeps, width, from) = after-Grown (new size) [] before (new-Represents size) in
    let bound : (m : ℕ) → contains seen m ≡ true → m < n =
      from n (λ m c. unfold contains in cc c) lower in
    (check_and_insert-Agrees (after (new size) before) seen n r).0
    ∙ ground (arith, bound n, newest_bounded seen n bound)

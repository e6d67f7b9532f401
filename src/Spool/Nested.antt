-- ===== src/Spool/Nested.antt =====
-- Guards of monitor_agent/spool.py that are taken more than once.
use employee_tracker.Common.{
  ◌≡◌, refl, sym, ◌∙◌, ap, arith, ℕ, suc, ltb, ◌-◌, Bool, true, false, some, List, [], ◌∷◌, ok,
  Bool-cases, inl, inr, if◌then◌else◌, ◌&&◌,
}
use employee_tracker.Spool.Disk.{Name, Folder, root, dead_letter, same}
use employee_tracker.Spool.Calls.{
  System, Process, lift, with_option, branch◌then◌else◌, pure, ◌>>=◌,
}
use employee_tracker.Spool.Guards.{
  Hashes, same_folder, same_key, depth_of, without_key, guard_depth, set_guard, artifact_guard_name,
  acquire_artifact_guard, release_artifact_guard,
}
use employee_tracker.Spool.Held.{same-left}
use employee_tracker.Spool.Moved.{same-right, same_refl}

abbrev Key : Type 0
Key = Folder × Name

abbrev Depths : Type 0
Depths = List (Key × ℕ)

folder-left : (a b c : Folder) → same_folder a b ≡ true → same_folder a c ≡ same_folder b c
folder-left root root c p = refl
folder-left root dead_letter c p = cc
folder-left dead_letter root c p = cc
folder-left dead_letter dead_letter c p = refl

folder-right : (a b c : Folder) → same_folder b c ≡ true → same_folder a b ≡ same_folder a c
folder-right a root root p = refl
folder-right a root dead_letter p = cc
folder-right a dead_letter root p = cc
folder-right a dead_letter dead_letter p = refl

folder_refl : (a : Folder) → same_folder a a ≡ true
folder_refl root = refl
folder_refl dead_letter = refl

key_refl : (k : Key) → same_key k k ≡ true
key_refl (f, n) = rw (folder_refl f, same_refl n) refl

and_left : (a b : Bool) → (a && b) ≡ true → a ≡ true
and_left true b p = refl
and_left false b p = cc

and_right : (a b : Bool) → (a && b) ≡ true → b ≡ true
and_right true b p = p
and_right false b p = cc

key-left : (m j k : Key) → same_key m j ≡ true → same_key m k ≡ same_key j k
key-left (f, n) (g, o) (e, p) q =
    rw
      (
        folder-left f g e (and_left (same_folder f g) (same n o) q),
        same-left n o p (and_right (same_folder f g) (same n o) q),
      )
      refl

key-right : (m j k : Key) → same_key j k ≡ true → same_key m j ≡ same_key m k
key-right (f, n) (g, o) (e, p) q =
    rw
      (
        folder-right f g e (and_left (same_folder g e) (same o p) q),
        same-right n o p (and_right (same_folder g e) (same o p) q),
      )
      refl

depth_of-same : (j k : Key) (gs : Depths) → same_key j k ≡ true → depth_of j gs ≡ depth_of k gs
unfolding depth_of
depth_of-same j k [] p = refl
depth_of-same j k ((m, d) ∷ gs) p = rw (key-right m j k p, depth_of-same j k gs p) refl

depth_of-without_key :
    (j k : Key) (gs : Depths) → same_key j k ≡ false → depth_of k (without_key j gs) ≡ depth_of k gs
unfolding depth_of without_key
depth_of-without_key j k [] p = refl
depth_of-without_key j k ((m, d) ∷ gs) p =
    let rest = depth_of-without_key j k gs p in
    elim (Bool-cases (same_key m j)) [
      | inl e ↦ rw (e, key-left m j k e ∙ p) rest
      | inr e ↦ rw e (ap (λ o. if same_key m k then some d else o) rest)
    ]

abbrev put_depth : Key → ℕ → Depths → Depths
put_depth j d gs = (j, d) ∷ without_key j gs

depth_of-put_depth : (j : Key) (d : ℕ) (gs : Depths) → depth_of j (put_depth j d gs) ≡ some d
unfolding depth_of
depth_of-put_depth j d gs = rw (key_refl j) refl

-- A depth that is set twice, back to what it was.
depth_of-restored :
    (j k : Key) (d e : ℕ) (gs : Depths)
    → depth_of j gs ≡ some d
    → depth_of k (put_depth j d (put_depth j e gs)) ≡ depth_of k gs
unfolding depth_of
depth_of-restored j k d e gs held = elim (Bool-cases (same_key j k)) [
  | inl p ↦ rw p (sym held ∙ depth_of-same j k gs p)
  | inr p ↦
      let outer = depth_of-without_key j k (put_depth j e gs) p in
      let middle : depth_of k (put_depth j e gs) ≡ depth_of k (without_key j gs) = rw p refl in
      rw p (outer ∙ (middle ∙ depth_of-without_key j k gs p))
]

module _ (os : System) (h : Hashes) where
  -- If a hidden name has a guard and the process holds that guard, then taking the guard again
  -- succeeds, blocking or not, and releasing it once returns, with the directories as they were and
  -- every guard held as often as before.
  pub acquire_artifact_guard-nested :
      (f : Folder) (n g : Name) (blocking : Bool) (depth : ℕ) (s : Process)
      → artifact_guard_name h n ≡ ok g
      → depth_of (f, g) s.guards ≡ some (suc depth)
      → (t : Process) × (u : Process) × (acquire_artifact_guard os h f n blocking s ≡ (ok true, t))
        × (release_artifact_guard os h f n t ≡ (ok tt, u))
        × (u.disk ≡ s.disk)
        × ((k : Folder × Name) → depth_of k u.guards ≡ depth_of k s.guards)
  unfolding acquire_artifact_guard release_artifact_guard ◌>>=◌ lift guard_depth with_option
      set_guard pure branch◌then◌else◌
  acquire_artifact_guard-nested f n g blocking depth s named held =
      let twice = put_depth (f, g) (suc (suc depth)) s.guards in
      let top = depth_of-put_depth (f, g) (suc (suc depth)) s.guards in
      let more : ltb 1 (suc (suc depth)) ≡ true = ground arith in
      let one_less : suc (suc depth) - 1 ≡ suc depth = omega arith in
      (
        record s { guards = twice },
        record s { guards = put_depth (f, g) (suc depth) twice },
        rw (named, held) refl,
        rw (named, top, more, one_less) refl,
        refl,
        λ k. depth_of-restored (f, g) k (suc depth) (suc (suc depth)) s.guards held,
      )

-- ===== src/Identity/Origin.antt =====
-- Where the machine identity of monitor_agent/identity.py comes from.
use employee_tracker.Common.{
  ◌∙◌, subst, ℕ, zero, suc, ◌+◌, ◌/◌, ◌%◌, ◌<◌, ◌≡◌, ◌≢◌, refl, sym, inl, inr, String, ◌||◌, Option,
  none, some, List, [], ◌∷◌, Result, ok, err, arith, length, Bool-cases, Result-cases, >>=-eq-ok,
  ◌>>◌, str_eq, eq_iff,
}
use employee_tracker.Identity.Resolve.{
  MachineIdentity, System, read_fallback_file, winner_from, read_concurrent_winner, create_fallback,
  load_or_create_fallback, change_at, stamped, hashed_uuid, or_fallback, resolve_machine_identity,
  is_missing, is_value_error, is_taken, read_linux_machine_id, read_windows_machine_id,
  read_macos_machine_id,
}

-- The byte at a place, 0 behind the end.
abbrev pub byte_at : ℕ → List ℕ → ℕ
byte_at i [] = 0
byte_at zero (b ∷ bs) = b
byte_at (suc i) (b ∷ bs) = byte_at i bs

byte_at-change_at :
    (i : ℕ) (g : ℕ → ℕ) (bs : List ℕ)
    → i < length bs
    → byte_at i (change_at i g bs) ≡ g (byte_at i bs)
unfolding change_at
byte_at-change_at i g [] h = ground arith
byte_at-change_at zero g (b ∷ bs) h = refl
byte_at-change_at (suc i) g (b ∷ bs) h = byte_at-change_at i g bs (ground arith)

byte_at-change_at_other :
    (i j : ℕ) (g : ℕ → ℕ) (bs : List ℕ) → i ≢ j → byte_at j (change_at i g bs) ≡ byte_at j bs
unfolding change_at
byte_at-change_at_other i j g [] h = refl
byte_at-change_at_other zero zero g (b ∷ bs) h = elim (h refl) [ ]
byte_at-change_at_other zero (suc j) g (b ∷ bs) h = refl
byte_at-change_at_other (suc i) zero g (b ∷ bs) h = refl
byte_at-change_at_other (suc i) (suc j) g (b ∷ bs) h =
    byte_at-change_at_other i j g bs (λ e. h (ground arith))

length-change_at : (i : ℕ) (g : ℕ → ℕ) (bs : List ℕ) → length (change_at i g bs) ≡ length bs
unfolding change_at
length-change_at i g [] = refl
length-change_at zero g (b ∷ bs) = refl
length-change_at (suc i) g (b ∷ bs) = omega (arith, length-change_at i g bs)

-- Of 16 bytes the identifier keeps the number, every byte but those at 6 and 8, and the low bits of
-- these two: the high half of byte 6 is 5, the version of a name-based UUID, and the two high bits of
-- byte 8 are 10, the variant of RFC 4122.
pub stamped-version :
    (bs : List ℕ)
    → length bs ≡ 16
    → (length (stamped bs) ≡ 16)
      × (byte_at 6 (stamped bs) / 16 ≡ 5)
      × (byte_at 8 (stamped bs) / 64 ≡ 2)
      × (byte_at 6 (stamped bs) % 16 ≡ byte_at 6 bs % 16)
      × (byte_at 8 (stamped bs) % 64 ≡ byte_at 8 bs % 64)
      × ((i : ℕ) → i ≢ 6 → i ≢ 8 → byte_at i (stamped bs) ≡ byte_at i bs)
unfolding stamped
stamped-version bs h =
    let low = change_at 6 (λ b. b % 16 + 80) bs in
    let sixth = byte_at-change_at 6 (λ b. b % 16 + 80) bs (ground arith) in
    let kept = byte_at-change_at_other 8 6 (λ b. b % 64 + 128) low (λ e. ground arith) in
    let eighth =
      byte_at-change_at 8 (λ b. b % 64 + 128) low
        (omega (arith, h, length-change_at 6 (λ b. b % 16 + 80) bs)) in
    let same = byte_at-change_at_other 6 8 (λ b. b % 16 + 80) bs (λ e. ground arith) in
    (
      omega (
        arith,
        h,
        length-change_at 8 (λ b. b % 64 + 128) low,
        length-change_at 6 (λ b. b % 16 + 80) bs,
      ),
      omega (arith, sixth, kept),
      omega (arith, eighth),
      omega (arith, sixth, kept),
      omega (arith, eighth, same),
      λ i not6 not8.
          byte_at-change_at_other 8 i _ low (λ e. not8 (sym e))
          ∙ byte_at-change_at_other 6 i _ bs (λ e. not6 (sym e)),
    )

-- The text is the canonical text of some UUID of version 4.
abbrev pub IsUuid4 : System → String → Type 0
IsUuid4 s v = (text : String) × (s.parse_uuid text ≡ some (some 4, v))

read_fallback_file-IsUuid4 :
    (s : System) (content : Result String) (v : String)
    → read_fallback_file s content ≡ ok v
    → IsUuid4 s v
unfolding read_fallback_file
read_fallback_file-IsUuid4 s content v h =
    let (text, e, k) = >>=-eq-ok content _ h in (s.strip text, grind arith)

ok_inj : {a b : MachineIdentity} → ok a ≡ ok b → a ≡ b
ok_inj h = cc

chmod-then : (s : System) (value v : String) → (s.chmod >> ok value) ≡ ok v → value ≡ v
chmod-then s value v h = let (u, e, k) = >>=-eq-ok s.chmod (λ _. ok value) h in cc

winner_from-IsUuid4 :
    (s : System) (left made : ℕ) (v : String) → winner_from s left made ≡ ok v → IsUuid4 s v
unfolding winner_from
winner_from-IsUuid4 s zero made v h = cc
winner_from-IsUuid4 s (suc left) made v h =
    elim (Result-cases (read_fallback_file s (s.later_read made))) [
      | inl (value, e) ↦
          subst (IsUuid4 s) (chmod-then s value v (rw (winner_from, e) at h))
            (read_fallback_file-IsUuid4 s _ value e)
      | inr (x, e) ↦ elim (Bool-cases (is_missing x.class || is_value_error x.class)) [
        | inl again ↦
            winner_from-IsUuid4 s left (suc made) v
              (let k = rw (winner_from, e) at h in rw again at k)
        | inr other ↦ (let k = rw (winner_from, e) at h in let l = rw other at k in cc)
      ]
    ]

create_fallback-IsUuid4 :
    (s : System) (v : String) → IsUuid4 s s.candidate → create_fallback s ≡ ok v → IsUuid4 s v
unfolding create_fallback read_concurrent_winner winner_from read_fallback_file
create_fallback-IsUuid4 s v fresh h = elim (Result-cases s.create_file) [
  | inl (u, e) ↦
      let k = rw e at h in
      let (w, made, l) = >>=-eq-ok (s.write_file >> s.chmod) (λ _. ok s.candidate) k in
      subst (IsUuid4 s) (cc) fresh
  | inr (x, e) ↦ elim (Bool-cases (is_taken x.class)) [
    | inl taken ↦ winner_from-IsUuid4 s 100 0 v (let k = rw e at h in rw taken at k)
    | inr other ↦ (let k = rw e at h in let l = rw other at k in cc)
  ]
]

load_or_create_fallback-IsUuid4 :
    (s : System) (v : String)
    → IsUuid4 s s.candidate
    → load_or_create_fallback s ≡ ok v
    → IsUuid4 s v
unfolding load_or_create_fallback read_concurrent_winner
load_or_create_fallback-IsUuid4 s v fresh h =
    let (u, made, k) = >>=-eq-ok s.make_directory _ h in
    elim (Result-cases (read_fallback_file s s.first_read)) [
      | inl (value, e) ↦
          subst (IsUuid4 s) (chmod-then s value v (rw e at k))
            (read_fallback_file-IsUuid4 s _ value e)
      | inr (x, e) ↦ elim (Bool-cases (is_missing x.class)) [
        | inl missing ↦ create_fallback-IsUuid4 s v fresh (let l = rw e at k in rw missing at l)
        | inr there ↦ elim (Bool-cases (is_value_error x.class)) [
          | inl broken ↦
              winner_from-IsUuid4 s 100 0 v
                (let l = rw e at k in let m = rw there at l in rw broken at m)
          | inr other ↦ (let l = rw e at k in let m = rw there at l in let n = rw other at m in cc)
        ]
      ]
    ]

-- The sources of an identity, each with what its value is then.
pub data Origin (s : System) (platform : String) : MachineIdentity → Type 0 where
  hashed :
      (raw : String)
      → (read_linux_machine_id s ≡ ok (some raw)) × (platform ≡ "linux")
      → Origin s platform (record { value = hashed_uuid s raw; source = "linux-machine-id" })
  hashed_windows :
      (raw : String)
      → (read_windows_machine_id s ≡ ok (some raw)) × (platform ≡ "win32")
      → Origin s platform (record { value = hashed_uuid s raw; source = "windows-machine-guid" })
  hashed_macos :
      (raw : String)
      → (read_macos_machine_id s ≡ ok (some raw)) × (platform ≡ "darwin")
      → Origin s platform (record { value = hashed_uuid s raw; source = "macos-platform-uuid" })
  persisted :
      (v : String)
      → IsUuid4 s v
      → Origin s platform (record { value = v; source = "persisted-random" })

or_fallback-Origin :
    (s : System) (platform source : String) (found : Result (Option String)) (id : MachineIdentity)
    → IsUuid4 s s.candidate
    → ((raw : String)
        → found ≡ ok (some raw)
        → Origin s platform (record { value = hashed_uuid s raw; source = source }))
    → or_fallback s source found ≡ ok id
    → Origin s platform id
unfolding or_fallback
or_fallback-Origin s platform source (err e) id fresh make h = cc
or_fallback-Origin s platform source (ok (some raw)) id fresh make h =
    subst (Origin s platform) (ok_inj h) (make raw refl)
or_fallback-Origin s platform source (ok none) id fresh make h =
    let (v, e, k) = >>=-eq-ok (load_or_create_fallback s) _ h in
    subst (Origin s platform) (ok_inj k) (persisted v (load_or_create_fallback-IsUuid4 s v fresh e))

-- If the text of a fresh `uuid4` is a UUID of version 4, then an identity that is returned either has
-- the source of the platform it was asked for and is the hash of the identifier that this platform's
-- reader found, or has the source `persisted-random` and is the canonical text of a UUID of version 4,
-- whether the fallback file was there, was made now, or was taken from a concurrent start.
pub resolve_machine_identity-Origin :
    (s : System) (platform : String) (id : MachineIdentity)
    → IsUuid4 s s.candidate
    → resolve_machine_identity s platform ≡ ok id
    → Origin s platform id
unfolding resolve_machine_identity
resolve_machine_identity-Origin s platform id fresh h =
    elim (Bool-cases (str_eq platform "linux")) [
      | inl linux ↦
          or_fallback-Origin s platform _ _ id fresh
            (λ raw e. hashed raw (e, (eq_iff platform "linux").0 linux)) (rw linux at h)
      | inr not_linux ↦ elim (Bool-cases (str_eq platform "win32")) [
        | inl windows ↦
            or_fallback-Origin s platform _ _ id fresh
              (λ raw e. hashed_windows raw (e, (eq_iff platform "win32").0 windows))
              (let k = rw not_linux at h in rw windows at k)
        | inr not_windows ↦ elim (Bool-cases (str_eq platform "darwin")) [
          | inl macos ↦
              or_fallback-Origin s platform _ _ id fresh
                (λ raw e. hashed_macos raw (e, (eq_iff platform "darwin").0 macos))
                (let k = rw not_linux at h in let l = rw not_windows at k in rw macos at l)
          | inr other ↦
              or_fallback-Origin s platform "persisted-random" (ok none) id fresh (λ raw e. cc)
                (let k = rw not_linux at h in let l = rw not_windows at k in rw other at l)
        ]
      ]
    ]

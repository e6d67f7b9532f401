-- ===== src/Logging/Marked.antt =====
-- Which conversions of a template `SecretFilter._redact_template` and `_argument_conversions` of
-- monitor_agent/logging_setup.py find within the tokens of bearer headers.
use mathlib.Core.List.{Memᴰ}
use mathlib.Core.List.Memᴰ
use employee_tracker.Common.{
  ℕ, zero, suc, ◌+◌, ◌≡◌, refl, ap, subst, ◌∙◌, inl, inr, String, true, none, some, List, [], ◌∷◌,
  map, Result, ok, >>=-eq-ok, any, member, get_elem?, arith, Bool-cases, eq_iff,
}
use employee_tracker.Logging.Scan.{Match, Bearer, Marker, Texts, ActiveConversion}
use employee_tracker.Logging.Redact.{
  each_match, concat, mark, conversion_at, takes_argument, argument_markers, bearer_text,
  redact_bearer, redact_template, same_index, Conversions, note_conversion, note_conversions,
}

each_match-mem {ℓ} :
    {A B : Type ℓ} (f : A → Result B) (ms : List A) (rs : List B) {m : A}
    → each_match f ms ≡ ok rs
    → Memᴰ m ms
    → (r : B) × (f m ≡ ok r) × Memᴰ r rs
unfolding each_match
each_match-mem f [] rs h m = elim m [ ]
each_match-mem f (x ∷ ms) rs h m =
    let (r, first, h') = >>=-eq-ok (f x) _ h in
    let (rest, second, h'') = >>=-eq-ok (each_match f ms) _ h' in
    let e : r ∷ rest ≡ rs = cc in
    elim (Memᴰ.cases_cons m) [
      | inl same ↦ (r, ap f same ∙ first, subst (Memᴰ r) e (Memᴰ.head refl))
      | inr later ↦
          let (q, k, l) = each_match-mem f ms rest second later in
          (q, k, subst (Memᴰ q) e (Memᴰ.tail l))
    ]

concat-mem {ℓ} :
    {A : Type ℓ} {x : A} {xs : List A} (xss : List (List A))
    → Memᴰ xs xss
    → Memᴰ x xs
    → Memᴰ x (concat xss)
concat-mem [] m k = elim m [ ]
concat-mem {x = x} (ys ∷ xss) m k = elim (Memᴰ.cases_cons m) [
  | inl same ↦ Memᴰ.append_left (concat xss) (subst (Memᴰ x) same k)
  | inr later ↦ Memᴰ.append_right ys (concat-mem xss later k)
]

module _ (t : Texts) (active : List ActiveConversion) where
  argument_markers-mem :
      (ms rs : List (Match Marker)) {m : Match Marker} {c : ActiveConversion}
      → argument_markers t active ms ≡ ok rs
      → Memᴰ m ms
      → get_elem? active m.groups.index ≡ some c
      → takes_argument t c ≡ true
      → Memᴰ m rs
  unfolding argument_markers conversion_at
  argument_markers-mem [] rs h m k takes = elim m [ ]
  argument_markers-mem (x ∷ ms) rs {m} {c} h i k takes =
      let (d, first, h') = >>=-eq-ok (conversion_at t active x.groups.index) _ h in
      let (rest, second, h'') = >>=-eq-ok (argument_markers t active ms) _ h' in
      elim (Memᴰ.cases_cons i) [
        | inl same ↦
            let found : get_elem? active x.groups.index ≡ some c = rw (← same) k in
            let e : d ≡ c = ground (arith, first, found) in
            let e' : x ∷ rest ≡ rs = ground (arith, h'', e, takes) in
            subst (Memᴰ m) e' (Memᴰ.head same)
        | inr later ↦
            let there : Memᴰ m rest = argument_markers-mem ms rest second later k takes in
            elim (Bool-cases (takes_argument t d)) [
              | inl taken ↦
                  let e' : x ∷ rest ≡ rs = ground (arith, h'', taken) in
                  subst (Memᴰ m) e' (Memᴰ.tail there)
              | inr passed ↦
                  let e' : rest ≡ rs = ground (arith, h'', passed) in subst (Memᴰ m) e' there
            ]
      ]

  bearer_text-mem :
      (header : String) (ms : List (Match Marker)) {m : Match Marker}
      → Memᴰ m ms
      → Memᴰ m.groups.index (bearer_text t header ms).1
  unfolding bearer_text
  bearer_text-mem header [] m = elim m [ ]
  bearer_text-mem header (x ∷ ms) m = Memᴰ.map (λ n. n.groups.index) m

  redact_bearer-mem :
      (b : Match Bearer) (r : String × List ℕ) {m : Match Marker} {c : ActiveConversion}
      → redact_bearer t active b ≡ ok r
      → Memᴰ m (t.marker_matches b.groups.token)
      → get_elem? active m.groups.index ≡ some c
      → takes_argument t c ≡ true
      → Memᴰ m.groups.index r.1
  unfolding redact_bearer
  redact_bearer-mem b r {m} h i k takes =
      let (ms, first, h') =
        >>=-eq-ok (argument_markers t active (t.marker_matches b.groups.token)) _ h in
      let e : bearer_text t b.groups.header ms ≡ r = cc in
      subst (λ q. Memᴰ m.groups.index q.1) e
        (bearer_text-mem b.groups.header ms (argument_markers-mem _ ms first i k takes))

  -- The marker of a conversion that takes an argument, within the token of a bearer header of the
  -- marked template, is one of `bearer_conversions`.
  pub redact_template-mem :
      (secrets : List String) (template msg : String) (bearers : List ℕ) {b : Match Bearer}
      {m : Match Marker} {c : ActiveConversion}
      → redact_template t secrets template active ≡ ok (msg, bearers)
      → Memᴰ b (t.bearer_matches (mark t template 0 0 active))
      → Memᴰ m (t.marker_matches b.groups.token)
      → get_elem? active m.groups.index ≡ some c
      → takes_argument t c ≡ true
      → Memᴰ m.groups.index bearers
  unfolding redact_template
  redact_template-mem secrets template msg bearers {b} {m} h within i k takes =
      let (rs, first, h') =
        >>=-eq-ok
          (each_match (redact_bearer t active) (t.bearer_matches (mark t template 0 0 active))) _
          h in
      let (texts, second, h'') = >>=-eq-ok (each_match _ _) _ h' in
      let e : concat (map (λ q. q.1) rs) ≡ bearers = cc in
      let (r, got, there) = each_match-mem (redact_bearer t active) _ rs first within in
      subst (Memᴰ m.groups.index) e
        (concat-mem _ (Memᴰ.map (λ q. q.1) there) (redact_bearer-mem b r got i k takes))

add_zero : (n : ℕ) → n + 0 ≡ n
add_zero n = omega arith

pub add_suc : (n j : ℕ) → n + suc j ≡ suc n + j
add_suc n j = omega arith

module _ (bearers : List ℕ) where
  -- A round of `_argument_conversions` keeps what is noted.
  positional-kept :
      (n i : ℕ) (active : List ActiveConversion) (s : Conversions)
      → any (same_index i) s.positional_bearers ≡ true
      → any (same_index i) (note_conversions bearers n active s).positional_bearers ≡ true
  unfolding note_conversions note_conversion
  positional-kept n i [] s h = h
  positional-kept n i (c ∷ active) s h =
      positional-kept (suc n) i active (note_conversion bearers n c s) (ground arith)

  mapping-kept :
      (n : ℕ) (k : String) (active : List ActiveConversion) (s : Conversions)
      → member k s.mapping_bearers ≡ true
      → member k (note_conversions bearers n active s).mapping_bearers ≡ true
  unfolding note_conversions note_conversion
  mapping-kept n k [] s h = h
  mapping-kept n k (c ∷ active) s h =
      mapping-kept (suc n) k active (note_conversion bearers n c s) (ground arith)

  pub positional-noted :
      (n j i : ℕ) (active : List ActiveConversion) (s : Conversions) {c : ActiveConversion}
      → get_elem? active j ≡ some c
      → any (same_index (n + j)) bearers ≡ true
      → c.argument_index ≡ some i
      → any (same_index i) (note_conversions bearers n active s).positional_bearers ≡ true
  unfolding note_conversions note_conversion
  positional-noted n j i [] s h k e = cc
  positional-noted n zero i (d ∷ active) s {c} h k e =
      let same : d ≡ c = cc in
      let here : d.argument_index ≡ some i = ap (λ q. q.argument_index) same ∙ e in
      let hit : any (same_index n) bearers ≡ true = rw (← add_zero n) k in
      positional-kept (suc n) i active (note_conversion bearers n d s)
        (rw (here, hit) (ground arith))
  positional-noted n (suc j) i (d ∷ active) s h k e =
      positional-noted (suc n) j i active (note_conversion bearers n d s) h (rw (← add_suc n j) k) e

  pub mapping-noted :
      (n j : ℕ) (key : String) (active : List ActiveConversion) (s : Conversions)
      {c : ActiveConversion}
      → get_elem? active j ≡ some c
      → any (same_index (n + j)) bearers ≡ true
      → c.argument_index ≡ none
      → c.key ≡ some key
      → member key (note_conversions bearers n active s).mapping_bearers ≡ true
  unfolding note_conversions note_conversion
  mapping-noted n j key [] s h k e f = cc
  mapping-noted n zero key (d ∷ active) s {c} h k e f =
      let same : d ≡ c = cc in
      let here : d.argument_index ≡ none = ap (λ q. q.argument_index) same ∙ e in
      let there : d.key ≡ some key = ap (λ q. q.key) same ∙ f in
      let hit : any (same_index n) bearers ≡ true = rw (← add_zero n) k in
      mapping-kept (suc n) key active (note_conversion bearers n d s)
        (rw (here, there, hit) (ground (arith, eq_iff key key)))
  mapping-noted n (suc j) key (d ∷ active) s h k e f =
      mapping-noted (suc n) j key active (note_conversion bearers n d s) h (rw (← add_suc n j) k) e
        f

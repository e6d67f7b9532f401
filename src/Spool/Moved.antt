-- ===== src/Spool/Moved.antt =====
-- A record that is held stays held where monitor_agent/spool.py publishes and moves records.
use employee_tracker.Common.{
  ◌≡◌, refl, sym, ◌∙◌, arith, eq_iff, true, false, Option, none, some, [], ◌∷◌, Bool-cases, inl,
  inr, ℕ, ltb, String, str_eq,
}
use employee_tracker.Spool.Disk.{
  Name, kind_code, pending, Folder, root, dead_letter, Disk, Names, same, same_kind, find, names,
  delete, put,
}
use employee_tracker.Spool.Held.{Held, is_away, still-Held, find-remove}

pub same-right : (x m n : Name) → same m n ≡ true → same x m ≡ same x n
same-right x m n p =
    let kinds : kind_code m.kind ≡ kind_code n.kind = ground arith in
    let texts : m.text ≡ n.text = (eq_iff m.text n.text).0 (ground arith) in rw (kinds, texts) refl

find-same : (m n : Name) (es : Names) → same m n ≡ true → find m es ≡ find n es
unfolding find
find-same m n [] p = refl
find-same m n ((x, k) ∷ es) p = rw (same-right x m n p, find-same m n es p) refl

pub same_refl : (m : Name) → same m m ≡ true
same_refl m =
    let texts : str_eq m.text m.text ≡ true = (eq_iff m.text m.text).1 refl in
    let kinds : same_kind m.kind m.kind ≡ true = ground arith in rw (kinds, texts) refl

pub find-here : (m : Name) (k : ℕ) (es : Names) → find m ((m, k) ∷ es) ≡ some k
unfolding find
find-here m k es = rw (same_refl m) refl

-- A free name takes no other's place.
free-differs :
    (m n : Name) (i : ℕ) (es : Names) → find m es ≡ none → find n es ≡ some i → same m n ≡ false
free-differs m n i es free found = elim (Bool-cases (same m n)) [
  | inl e ↦ let bad : none ≡ some i = sym free ∙ (find-same m n es e ∙ found) in cc
  | inr e ↦ e
]

find-free :
    (g f : Folder) (m n : Name) (k i : ℕ) (d : Disk)
    → find m (names g d) ≡ none
    → find n (names f d) ≡ some i
    → find n (names f (put g m k d)) ≡ find n (names f d)
unfolding find
find-free root root m n k i d free found = rw (free-differs m n i d.root_names free found) refl
find-free root dead_letter m n k i d free found = refl
find-free dead_letter root m n k i d free found = refl
find-free dead_letter dead_letter m n k i d free found =
    rw (free-differs m n i d.dead_names free found) refl

away-dead_letter : (o : Option Name) (m : Name) → is_away o dead_letter m ≡ true
away-dead_letter none m = refl
away-dead_letter (some a) m = refl

module _ {o : Option Name} {i : ℕ} {c : String} where
  pub free-Held :
      (g : Folder) (m : Name) (k : ℕ) (d : Disk)
      → find m (names g d) ≡ none
      → Held o i c d
      → Held o i c (put g m k d)
  free-Held root m k d free p =
      still-Held d _ p (find-free root p.folder m p.name k i d free p.found) p.old refl
  free-Held dead_letter m k d free p =
      still-Held d _ p (find-free dead_letter p.folder m p.name k i d free p.found) p.old refl

  -- What stands in the first folder under a name that goes is still in the second.
  delete-linked :
      (n m : Name) (k : ℕ) (d : Disk) (f : Folder) (r : Name)
      → same_kind m.kind pending ≡ true
      → find n d.root_names ≡ some k
      → find m d.dead_names ≡ some k
      → same_kind r.kind pending ≡ true
      → is_away o f r ≡ true
      → find r (names f d) ≡ some i
      → ltb i d.next ≡ true
      → (d.nodes i).content ≡ c
      → Held o i c (delete root n d)
  delete-linked n m k d root r is_record here there is_pending away found old content =
      elim (Bool-cases (same n r)) [
        | inl e ↦ record {
          folder = dead_letter;
          name = m;
          is_pending = is_record;
          away = away-dead_letter o m;
          found = there ∙ (sym here ∙ (find-same n r d.root_names e ∙ found));
          old = old;
          content = content;
        }
        | inr e ↦ record {
          folder = root;
          name = r;
          is_pending = is_pending;
          away = away;
          found = find-remove n r d.root_names e ∙ found;
          old = old;
          content = content;
        }
      ]
  delete-linked n m k d dead_letter r is_record here there is_pending away found old content =
      record {
        folder = dead_letter;
        name = r;
        is_pending = is_pending;
        away = away;
        found = found;
        old = old;
        content = content;
      }

  pub linked-Held :
      (n m : Name) (k : ℕ) (d : Disk)
      → same_kind m.kind pending ≡ true
      → find n d.root_names ≡ some k
      → find m d.dead_names ≡ some k
      → Held o i c d
      → Held o i c (delete root n d)
  linked-Held n m k d is_record here there p =
      delete-linked n m k d p.folder p.name is_record here there p.is_pending p.away p.found p.old
        p.content

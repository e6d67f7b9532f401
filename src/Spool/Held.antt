-- ===== src/Spool/Held.antt =====
-- A record that is held: some name of a record, in one of the directories of monitor_agent/spool.py,
-- is a name of its file, and the file has its content.
use employee_tracker.Common.{
  eq_iff, ◌≡◌, refl, ap, ◌∙◌, arith, Bool, not, true, false, Option, none, some, [], ◌∷◌,
  Bool-cases, inl, inr, ℕ, suc, ltb, ◌==◌, String, if◌then◌else◌,
}
use employee_tracker.Spool.Disk.{
  Name, kind_code, pending, Folder, root, dead_letter, Disk, Names, Node, same, same_kind, find,
  remove, names, with_new, delete, put, set_node, write_file,
}
use employee_tracker.Spool.Auxiliary.{IsHidden, Robust}

-- A name that is not the one that is left out, of those in the spool's own directory.
abbrev pub is_away : Option Name → Folder → Name → Bool
is_away none f n = true
is_away (some a) root n = not (same a n)
is_away (some a) dead_letter n = true

-- A name that is left out does not count.
pub record Held (o : Option Name) (i : ℕ) (c : String) (d : Disk) : Type 0 where
  pub folder : Folder
  pub name : Name
  pub is_pending : same_kind name.kind pending ≡ true
  pub away : is_away o folder name ≡ true
  pub found : find name (names folder d) ≡ some i
  pub old : ltb i d.next ≡ true
  pub content : (d.nodes i).content ≡ c

-- The files that a process may write while the record is held.
abbrev pub IsOther : ℕ → ℕ → Type 0
IsOther i j = (i == j) ≡ false

pub hidden-differs : (h n : Name) → IsHidden h → same_kind n.kind pending ≡ true → same h n ≡ false
hidden-differs h n p q = ground arith

-- A name can be compared by one that is the same.
pub same-left : (m h n : Name) → same m h ≡ true → same m n ≡ same h n
same-left m h n p =
    let kinds : kind_code m.kind ≡ kind_code h.kind = ground arith in
    let texts : m.text ≡ h.text = (eq_iff m.text h.text).0 (ground arith) in rw (kinds, texts) refl

pub find-remove : (h n : Name) (es : Names) → same h n ≡ false → find n (remove h es) ≡ find n es
unfolding find remove
find-remove h n [] p = refl
find-remove h n ((m, k) ∷ es) p =
    let again = find-remove h n es p in
    elim (Bool-cases (same m h)) [
      | inl e ↦ let other : same m n ≡ false = same-left m h n e ∙ p in rw (e, other) again
      | inr e ↦ rw e (ap (λ o. if same m n then some k else o) again)
    ]

-- Another name is found as before where a name comes or goes.
find-put :
    (f g : Folder) (n m : Name) (k : ℕ) (d : Disk)
    → same n m ≡ false
    → find m (names g (put f n k d)) ≡ find m (names g d)
unfolding find
find-put root root n m k d p = rw p refl
find-put root dead_letter n m k d p = refl
find-put dead_letter root n m k d p = refl
find-put dead_letter dead_letter n m k d p = rw p refl

find-delete :
    (f g : Folder) (n m : Name) (d : Disk)
    → same n m ≡ false
    → find m (names g (delete f n d)) ≡ find m (names g d)
find-delete root root n m d p = find-remove n m _ p
find-delete root dead_letter n m d p = refl
find-delete dead_letter root n m d p = refl
find-delete dead_letter dead_letter n m d p = find-remove n m _ p

put-next : (f : Folder) (n : Name) (k : ℕ) (d : Disk) → (put f n k d).next ≡ d.next
put-next root n k d = refl
put-next dead_letter n k d = refl

put-nodes : (f : Folder) (n : Name) (k : ℕ) (d : Disk) → (put f n k d).nodes ≡ d.nodes
put-nodes root n k d = refl
put-nodes dead_letter n k d = refl

delete-next : (f : Folder) (n : Name) (d : Disk) → (delete f n d).next ≡ d.next
delete-next root n d = refl
delete-next dead_letter n d = refl

delete-nodes : (f : Folder) (n : Name) (d : Disk) → (delete f n d).nodes ≡ d.nodes
delete-nodes root n d = refl
delete-nodes dead_letter n d = refl

names-set_node : (f : Folder) (k : ℕ) (v : Node) (d : Disk) → names f (set_node k v d) ≡ names f d
names-set_node root k v d = refl
names-set_node dead_letter k v d = refl

abbrev one_more : Disk → Disk
one_more d = record d { next = suc d.next }

names-one_more : (f : Folder) (d : Disk) → names f (one_more d) ≡ names f d
names-one_more root d = refl
names-one_more dead_letter d = refl

module _ {o : Option Name} {i : ℕ} {c : String} where
  -- A step that leaves the name, the file and its content keeps the record.
  pub still-Held :
      (d e : Disk) (p : Held o i c d)
      → find p.name (names p.folder e) ≡ find p.name (names p.folder d)
      → ltb i e.next ≡ true
      → (e.nodes i).content ≡ (d.nodes i).content
      → Held o i c e
  still-Held d e p names old content = record {
    folder = p.folder;
    name = p.name;
    is_pending = p.is_pending;
    away = p.away;
    found = names ∙ p.found;
    old = old;
    content = content ∙ p.content;
  }

  -- A name that is not the record's comes or goes.
  put-Held :
      (f : Folder) (n : Name) (k : ℕ) (d : Disk) (p : Held o i c d)
      → same n p.name ≡ false
      → Held o i c (put f n k d)
  put-Held f n k d p other =
      still-Held d (put f n k d) p (find-put f p.folder n p.name k d other)
        (rw (put-next f n k d) p.old) (rw (put-nodes f n k d) refl)

  pub delete-Held :
      (f : Folder) (n : Name) (d : Disk) (p : Held o i c d)
      → same n p.name ≡ false
      → Held o i c (delete f n d)
  delete-Held f n d p other =
      still-Held d (delete f n d) p (find-delete f p.folder n p.name d other)
        (rw (delete-next f n d) p.old) (rw (delete-nodes f n d) refl)

  set_node-Held :
      (j : ℕ) (v : Node) (d : Disk) → IsOther i j → Held o i c d → Held o i c (set_node j v d)
  set_node-Held j v d other p =
      still-Held d (set_node j v d) p (ap (find p.name) (names-set_node p.folder j v d)) p.old
        (rw other refl)

  one_more-Held : (d : Disk) → Held o i c d → Held o i c (one_more d)
  one_more-Held d p =
      let old = p.old in
      still-Held d (one_more d) p (ap (find p.name) (names-one_more p.folder d)) (ground arith) refl

  fresh-IsOther : (d : Disk) → Held o i c d → IsOther i d.next
  fresh-IsOther d p = let old = p.old in ground arith

  hidden-put-Held :
      (f : Folder) (n : Name) (k : ℕ) (d : Disk)
      → IsHidden n
      → Held o i c d
      → Held o i c (put f n k d)
  hidden-put-Held f n k d hidden p =
      put-Held f n k d p (hidden-differs n p.name hidden p.is_pending)

  pub hidden-delete-Held :
      (f : Folder) (n : Name) (d : Disk) → IsHidden n → Held o i c d → Held o i c (delete f n d)
  hidden-delete-Held f n d hidden p =
      delete-Held f n d p (hidden-differs n p.name hidden p.is_pending)

  pub with_new-Held :
      (f : Folder) (n : Name) (d : Disk) → IsHidden n → Held o i c d → Held o i c (with_new f n d)
  with_new-Held root n d hidden p =
      one_more-Held _
        (hidden-put-Held root n d.next _ hidden (set_node-Held d.next _ d (fresh-IsOther d p) p))
  with_new-Held dead_letter n d hidden p = one_more-Held _ (
      hidden-put-Held dead_letter n d.next _ hidden
        (set_node-Held d.next _ d (fresh-IsOther d p) p))

  pub Held-Robust : Robust (Held o i c) (IsOther i)
  unfolding write_file
  Held-Robust = record {
    added = with_new-Held;
    removed = hidden-delete-Held;
    moved = λ f n m k d hidden hidden_too p.
        hidden-put-Held f m k _ hidden_too
          (hidden-delete-Held f m _ hidden_too (hidden-delete-Held f n d hidden p));
    fresh = fresh-IsOther;
    written = λ j t d other p. set_node-Held j _ d other p;
  }

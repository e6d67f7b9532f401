-- ===== src/Spool/Evicts.antt =====
-- The loops of `enforce_retention` of monitor_agent/spool.py on the directories, against those on a list
-- of records in the module Store.
use employee_tracker.Common.{
  ◌≡◌, refl, sym, ap, ◌∙◌, ℕ, suc, ◌+◌, ◌-◌, Bool, true, false, not, String, Result, ok, err, List,
  [], ◌∷◌, map, filter, arith, leb, str_eq, if◌then◌else◌,
}
use employee_tracker.Common.Int.{ℤ, ltb_ℤ}
use employee_tracker.Spool.Store.{
  Entry, Clerk, record_time, pending_paths, total_size, Eviction, evict, evict_expired,
  evict_oldest,
}
use employee_tracker.Spool.Store as Store
use employee_tracker.Spool.Disk.{Disk, Names, pending, same_kind, remove}
use employee_tracker.Spool.Calls.{
  System, Process, Io, pure, continue, branch◌then◌else◌, ◌>>=◌, ◌>>◌,
}
use employee_tracker.Spool.Guards.{Hashes}
use employee_tracker.Spool.Markers.{Codec, text_name}
use employee_tracker.Spool.Queue.{evict_record, drop_expired, drop_oldest}
use employee_tracker.Spool.Files.{
  SameFiles, SameFiles-pure, SameFiles-bind, SameFiles-branch, unlink_name-SameFiles,
}
use employee_tracker.Spool.Still.{
  Returns, Returns-after, IsTruthful, Removes, unlink_name-Removes, validated_record_stat-Still,
}

-- The names of the records in a directory.
abbrev pub record_names : Names → List String
record_names [] = []
record_names ((m, i) ∷ es) =
    let rest = record_names es in if same_kind m.kind pending then m.text ∷ rest else rest

-- The directory holds the names that the list has left, and as much has been evicted.
pub record Agrees (d : Disk) (count bytes : ℕ) (v : Eviction) : Type 0 where
  pub left : record_names d.root_names ≡ map (λ e. e.name) v.left
  pub counted : count ≡ v.evicted_count
  pub summed : bytes ≡ v.evicted_bytes

record_names-remove :
    (n : String) (es : Names)
    → record_names (remove (text_name n) es) ≡ filter (λ x. not (str_eq x n)) (record_names es)
unfolding remove
record_names-remove n [] = refl
record_names-remove n ((m, i) ∷ es) = ground (arith, record_names-remove n es)

map-unlink_name :
    (n : String) (es : List Entry)
    → map (λ e. e.name) (Store.unlink_name n es)
      ≡ filter (λ x. not (str_eq x n)) (map (λ e. e.name) es)
unfolding Store.unlink_name
map-unlink_name n [] = refl
map-unlink_name n (e ∷ es) = ground (arith, map-unlink_name n es)

-- Removing the name of a record is evicting it.
Agrees-evict :
    (e : Entry) (d d' : Disk) (count bytes : ℕ) (v : Eviction)
    → Removes (text_name e.name) d d'
    → Agrees d count bytes v
    → Agrees d' (suc count) (bytes + e.size) (evict e v)
unfolding evict
Agrees-evict e d d' count bytes v gone h = record {
  left =
      ap record_names gone
      ∙ record_names-remove e.name d.root_names
      ∙ ap (filter (λ x. not (str_eq x e.name))) h.left
      ∙ sym (map-unlink_name e.name v.left);
  counted = ap (λ n. suc n) h.counted;
  summed = ap (λ n. n + e.size) h.summed;
}

-- A run that returns went through its first part, and what follows that decides what it leaves.
continue-leads :
    {A B : Type 0} (Q : Disk → Type 0) (r : Result A) (f : A → Io B) (t : Process) (b : B)
    → (continue r f t).0 ≡ ok b
    → ((a : A) → r ≡ ok a → (f a t).0 ≡ ok b → Q (f a t).1.disk)
    → Q (continue r f t).1.disk
continue-leads Q (ok a) f t b e h = h a refl e
continue-leads Q (err raised) f t b e h = cc

pub bind-leads :
    {A B : Type 0} (Q : Disk → Type 0) (m : Io A) (f : A → Io B) (s : Process) (b : B)
    → ((m >>= f) s).0 ≡ ok b
    → ((a : A) → (m s).0 ≡ ok a → (f a (m s).1).0 ≡ ok b → Q (f a (m s).1).1.disk)
    → Q ((m >>= f) s).1.disk
unfolding ◌>>=◌
bind-leads Q m f s b e h = continue-leads Q (m s).0 f (m s).1 b e h

-- From directories that agree with a state of the retention, a run that returns leaves directories
-- that agree with another.
pub record Evicts (count bytes : ℕ) (v : Eviction) (m : Io (ℕ × ℕ)) (w : Eviction) : Type 0 where
  pub leads :
      (s : Process) (c b : ℕ)
      → Agrees s.disk count bytes v
      → (m s).0 ≡ ok (c, b)
      → Agrees (m s).1.disk c b w

Evicts-pure : (count bytes : ℕ) (v : Eviction) → Evicts count bytes v (pure (count, bytes)) v
unfolding pure
Evicts-pure count bytes v = record {
  leads = λ s c b g e.
      let same : count ≡ c = cc in
      let same' : bytes ≡ b = cc in
      record { left = g.left; counted = sym same ∙ g.counted; summed = sym same' ∙ g.summed };
}

Evicts-branch :
    (test : Bool) (count bytes : ℕ) (v w w' : Eviction) (end : Eviction → Eviction)
    (m n : Io (ℕ × ℕ))
    → Evicts count bytes v m (end w)
    → Evicts count bytes v n (end w')
    → Evicts count bytes v (branch test then m else n) (end (if test then w else w'))
unfolding branch◌then◌else◌
Evicts-branch true count bytes v w w' end m n p q = p
Evicts-branch false count bytes v w w' end m n p q = q

module _ (os : System) (h : Hashes) (j : Codec) (k : Clerk) (size : String → ℕ)
    (truth : IsTruthful os) where
  evict_record-Removes :
      (e : Entry) → Returns (Removes (text_name e.name)) (evict_record os h j k size e)
  unfolding evict_record
  evict_record-Removes e =
      Returns-after (Removes (text_name e.name)) _ _
        (validated_record_stat-Still os (text_name e.name))
        λ st. unlink_name-Removes os (text_name e.name) truth

  Evicts-record :
      (x : Entry) (count bytes : ℕ) (v w : Eviction) (m : Io (ℕ × ℕ))
      → Evicts (suc count) (bytes + x.size) (evict x v) m w
      → Evicts count bytes v (evict_record os h j k size x >> m) w
  Evicts-record x count bytes v w m q = record {
    leads = λ s c b g e.
        bind-leads (λ d. Agrees d c b w) (evict_record os h j k size x) (λ u. m) s (c, b) e
          λ u first last.
            let gone = (evict_record-Removes x).returns s u first in
            q.leads _ c b (Agrees-evict x s.disk _ count bytes v gone g) last;
  }

  pub drop_oldest-Evicts :
      (max_bytes pending_bytes : ℕ) (es : List Entry) (count bytes : ℕ) (v : Eviction)
      → Evicts count bytes v
          (drop_oldest os h j k size max_bytes pending_bytes es count bytes)
          (evict_oldest max_bytes pending_bytes es v)
  unfolding drop_oldest evict_oldest
  drop_oldest-Evicts max_bytes pending_bytes [] count bytes v = Evicts-pure count bytes v
  drop_oldest-Evicts max_bytes pending_bytes (x ∷ es) count bytes v =
      Evicts-branch (leb pending_bytes max_bytes) count bytes v v _ (λ w. w) _ _
        (Evicts-pure count bytes v)
        (Evicts-record x count bytes v _ _
          (drop_oldest-Evicts max_bytes (pending_bytes - x.size) es _ _ (evict x v)))

  pub drop_expired-Evicts :
      (cutoff : ℤ) (es : List Entry) (count bytes : ℕ) (v : Eviction)
      → Evicts count bytes v
          (drop_expired os h j k size cutoff es count bytes)
          (evict_expired k cutoff es v)
  unfolding drop_expired evict_expired
  drop_expired-Evicts cutoff [] count bytes v = Evicts-pure count bytes v
  drop_expired-Evicts cutoff (x ∷ es) count bytes v =
      Evicts-branch (ltb_ℤ (record_time k x) cutoff) count bytes v (evict x v) v
        (evict_expired k cutoff es) _ _
        (Evicts-record x count bytes v _ _ (drop_expired-Evicts cutoff es _ _ (evict x v)))
        (drop_expired-Evicts cutoff es count bytes v)

  evict_record-SameFiles : (e : Entry) → Returns SameFiles (evict_record os h j k size e)
  unfolding evict_record
  evict_record-SameFiles e =
      Returns-after SameFiles _ _ (validated_record_stat-Still os (text_name e.name))
        λ st. unlink_name-SameFiles os (text_name e.name) truth

  pub drop_expired-SameFiles :
      (cutoff : ℤ) (es : List Entry) (count bytes : ℕ)
      → Returns SameFiles (drop_expired os h j k size cutoff es count bytes)
  unfolding drop_expired
  drop_expired-SameFiles cutoff [] count bytes = SameFiles-pure (count, bytes)
  drop_expired-SameFiles cutoff (x ∷ es) count bytes =
      SameFiles-branch (ltb_ℤ (record_time k x) cutoff) _ _
        (SameFiles-bind _ _ (evict_record-SameFiles x)
          λ u. drop_expired-SameFiles cutoff es (suc count) (bytes + x.size))
        (drop_expired-SameFiles cutoff es count bytes)

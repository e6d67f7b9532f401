-- ===== src/Spool/Retention.antt =====
-- What the second loop of `Spool.enforce_retention` evicts.
use employee_tracker.Common.{
  ℕ, suc, ◌+◌, ◌-◌, ◌≤◌, ◌≡◌, refl, ap, sym, subst, inl, inr, false, List, [], ◌∷◌, ◌++◌, arith,
  length, leb, Bool-cases,
}
use employee_tracker.Spool.Store.{Entry, Eviction, evict, total_size, evict_oldest}

-- These records are evicted, one after the other.
abbrev pub evict_all : List Entry → Eviction → Eviction
evict_all [] v = v
evict_all (e ∷ es) v = evict_all es (evict e v)

-- Of the records, oldest first, those at the front are gone; what is kept fits, and no shorter
-- front would have left what fits.
pub record Fitted (max_bytes : ℕ) (es : List Entry) (v after : Eviction) : Type 0 where
  pub gone : List Entry
  pub kept : List Entry
  pub whole : es ≡ gone ++ kept
  pub fits : total_size kept ≤ max_bytes
  pub shortest :
      (front rest : List Entry)
      → es ≡ front ++ rest
      → total_size rest ≤ max_bytes
      → length gone ≤ length front
  pub evicted : after ≡ evict_all gone v

cancel : (a b : ℕ) → a + b - a ≡ b
cancel a b = omega arith

tail_eq : (e f : Entry) (es fs : List Entry) → e ∷ es ≡ f ∷ fs → es ≡ fs
tail_eq e f es fs h = cc

shorter :
    (max_bytes : ℕ) (e : Entry) (es : List Entry) (gone : ℕ) (front rest : List Entry)
    → e ∷ es ≡ front ++ rest
    → total_size rest ≤ max_bytes
    → leb (total_size (e ∷ es)) max_bytes ≡ false
    → ((f r : List Entry) → es ≡ f ++ r → total_size r ≤ max_bytes → gone ≤ length f)
    → suc gone ≤ length front
unfolding total_size
shorter max_bytes e es gone [] rest h k large least =
    let k' : total_size (e ∷ es) ≤ max_bytes = subst (λ xs. total_size xs ≤ max_bytes) (sym h) k in
    ground arith
shorter max_bytes e es gone (f ∷ fs) rest h k large least =
    omega (arith, least fs rest (tail_eq e f es (fs ++ rest) h) k)

-- Given the bytes of the records, oldest first, the second loop of `enforce_retention` evicts a
-- front of them, one record after the other: what it keeps fits into `max_bytes`, and after
-- evicting any shorter front what is kept would not have fitted.
pub evict_oldest-Fitted :
    (max_bytes : ℕ) (es : List Entry) (v : Eviction)
    → Fitted max_bytes es v (evict_oldest max_bytes (total_size es) es v)
unfolding evict_oldest total_size
evict_oldest-Fitted max_bytes [] v = record {
  gone = [];
  kept = [];
  whole = refl;
  fits = ground arith;
  shortest = λ front rest h k. ground arith;
  evicted = refl;
}
evict_oldest-Fitted max_bytes (e ∷ es) v = elim (Bool-cases (leb (total_size (e ∷ es)) max_bytes)) [
  | inl fitting ↦ record {
    gone = [];
    kept = e ∷ es;
    whole = refl;
    fits = ground arith;
    shortest = λ front rest h k. ground arith;
    evicted = rw fitting refl;
  }
  | inr large ↦
      let next = evict_oldest-Fitted max_bytes es (evict e v) in
      record {
        gone = e ∷ next.gone;
        kept = next.kept;
        whole = ap (λ xs. e ∷ xs) next.whole;
        fits = next.fits;
        shortest = λ front rest h k.
            shorter max_bytes e es (length next.gone) front rest h k large next.shortest;
        evicted = rw (large, cancel e.size (total_size es)) next.evicted;
      }
]

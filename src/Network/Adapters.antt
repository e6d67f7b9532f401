-- ===== src/Network/Adapters.antt =====
-- What the loops of `_collect_adapters` of monitor_agent/collectors/network.py compute.
use employee_tracker.Common.{
  ◌≡◌, ◌≢◌, ◌⊎◌, refl, ap, subst, true, false, All, All-weaken, Option-cases, >>=-eq-ok, ◌∙◌, inl,
  inr, String, Bool, Option, none, some, List, [], ◌∷◌, ok, ◌>>=◌, Bool-cases, if◌then◌else◌, arith,
  ◌++◌,
}
use employee_tracker.Common.Dict.{Dict, lookup}
use employee_tracker.Common.Sort.{sorted, Perm, IsOrder, IsSorted, sorted-Perm, sorted-IsSorted}
use employee_tracker.Models.{as_string, bool}
use employee_tracker.Network.Records.{Texts, optional_number}
use employee_tracker.Network.Collect.{
  InterfaceAddress, InterfaceStats, Psutil, Adapter, assign, scan_addresses, is_up, with_adapter,
  scan_interfaces, adapter_le, collect_adapters,
}

-- The first address of a family that is a text.
abbrev pub first_text : (InterfaceAddress → Bool) → List InterfaceAddress → Option String
first_text fits [] = none
first_text fits (a ∷ addresses) =
    let rest = first_text fits addresses in
    if fits a then elim (as_string a.address) [ none ↦ rest | some s ↦ some s ] else rest

-- An interface as an adapter.
abbrev pub described : Texts → String → List InterfaceAddress → InterfaceStats → Adapter
described t interface addresses s = record {
  interface = interface;
  ipv4 = first_text (λ a. a.is_ipv4) addresses;
  mac = first_text (λ a. a.is_link) addresses;
  speed_mb = optional_number t s.speed;
  mtu = optional_number t s.mtu;
}

abbrev pub described_if_up :
    Texts → String → List InterfaceAddress → Option InterfaceStats → List Adapter
described_if_up t interface addresses none = []
described_if_up t interface addresses (some s) =
    if is_up s then described t interface addresses s ∷ [] else []

abbrev pub described_all : Texts → Dict InterfaceStats → Dict (List InterfaceAddress) → List Adapter
described_all t stats [] = []
described_all t stats ((interface, addresses) ∷ interfaces) =
    described_if_up t interface addresses (lookup interface stats)
    ++ described_all t stats interfaces

-- A value that is set stays, else the first text is taken.
abbrev or_first : Option String → Option String → Option String
or_first (some s) found = some s
or_first none found = found

assign-first_text :
    (fits : InterfaceAddress → Bool) (a : InterfaceAddress) (addresses : List InterfaceAddress)
    (known : Option String)
    → or_first (assign (fits a) a.address known) (first_text fits addresses)
      ≡ or_first known (first_text fits (a ∷ addresses))
assign-first_text fits a addresses (some s) = refl
assign-first_text fits a addresses none = ground arith

scan_addresses-first_text :
    (addresses : List InterfaceAddress) (ipv4 mac : Option String)
    → scan_addresses addresses ipv4 mac ≡ (
      or_first ipv4 (first_text (λ a. a.is_ipv4) addresses),
      or_first mac (first_text (λ a. a.is_link) addresses),
    )
unfolding scan_addresses
scan_addresses-first_text [] ipv4 mac = ground arith
scan_addresses-first_text (a ∷ addresses) ipv4 mac =
    scan_addresses-first_text addresses _ _
    ∙ rw
        (
          assign-first_text (λ a. a.is_ipv4) a addresses ipv4,
          assign-first_text (λ a. a.is_link) a addresses mac,
        )
        refl

with_adapter-described :
    (t : Texts) (interface : String) (addresses : List InterfaceAddress)
    (found : Option InterfaceStats) (rest : List Adapter)
    → with_adapter t interface addresses found rest
      ≡ described_if_up t interface addresses found ++ rest
unfolding with_adapter
with_adapter-described t interface addresses none rest = refl
with_adapter-described t interface addresses (some s) rest = elim (Bool-cases (is_up s)) [
  | inl up ↦ rw (scan_addresses-first_text addresses none none, up) refl
  | inr down ↦ rw down refl
]

scan_interfaces-described :
    (t : Texts) (stats : Dict InterfaceStats) (interfaces : Dict (List InterfaceAddress))
    → scan_interfaces t stats interfaces ≡ described_all t stats interfaces
unfolding scan_interfaces
scan_interfaces-described t stats [] = refl
scan_interfaces-described t stats ((interface, addresses) ∷ interfaces) =
    with_adapter-described t interface addresses (lookup interface stats) _
    ∙ ap (λ rest. described_if_up t interface addresses (lookup interface stats) ++ rest)
        (scan_interfaces-described t stats interfaces)

-- One adapter for each interface that has statistics whose isup is True, in the order of psutil.
pub data Described (t : Texts) (stats : Dict InterfaceStats)
    : Dict (List InterfaceAddress) → List Adapter → Type 0 where
  no_interface : Described t stats [] []
  unknown :
      (interface : String) (addresses : List InterfaceAddress)
      {interfaces : Dict (List InterfaceAddress)} {adapters : List Adapter}
      → lookup interface stats ≡ none
      → Described t stats interfaces adapters
      → Described t stats ((interface, addresses) ∷ interfaces) adapters
  down :
      (interface : String) (addresses : List InterfaceAddress) (s : InterfaceStats)
      {interfaces : Dict (List InterfaceAddress)} {adapters : List Adapter}
      → lookup interface stats ≡ some s
      → s.isup ≢ bool true
      → Described t stats interfaces adapters
      → Described t stats ((interface, addresses) ∷ interfaces) adapters
  up :
      (interface : String) (addresses : List InterfaceAddress) (s : InterfaceStats)
      {interfaces : Dict (List InterfaceAddress)} {adapters : List Adapter}
      → lookup interface stats ≡ some s
      → s.isup ≡ bool true
      → Described t stats interfaces adapters
      → Described t stats
          ((interface, addresses) ∷ interfaces)
          (described t interface addresses s ∷ adapters)

is_up-true : (s : InterfaceStats) → is_up s ≡ true → s.isup ≡ bool true
is_up-true s h = ground arith

is_up-false : (s : InterfaceStats) → is_up s ≡ false → s.isup ≢ bool true
is_up-false s h = λ e. ground arith

described_all-Described :
    (t : Texts) (stats : Dict InterfaceStats) (interfaces : Dict (List InterfaceAddress))
    → Described t stats interfaces (described_all t stats interfaces)
described_all-Described t stats [] = no_interface
described_all-Described t stats ((interface, addresses) ∷ interfaces) =
    let rest = described_all-Described t stats interfaces in
    elim (Option-cases (lookup interface stats)) [
      | inl absent ↦ rw absent (unknown interface addresses absent rest)
      | inr (s, there) ↦ elim (Bool-cases (is_up s)) [
        | inl e ↦ rw (there, e) (up interface addresses s there (is_up-true s e) rest)
        | inr e ↦ rw (there, e) (down interface addresses s there (is_up-false s e) rest)
      ]
    ]

-- `<` on texts is a strict total order, as far as sorting by it goes.
pub record IsTextOrder (t : Texts) : Type 0 where
  pub asym : (a b : String) → t.text_lt a b ≡ true → t.text_lt b a ≡ false
  pub cotrans :
      (a b c : String) → t.text_lt a c ≡ true → (t.text_lt a b ≡ true) ⊎ (t.text_lt b c ≡ true)

-- No later adapter has a smaller name, case aside.
abbrev pub NameSorted : Texts → List Adapter → Type 0
NameSorted t [] = Unit
NameSorted t (a ∷ adapters) =
    All (λ b. t.text_lt (t.casefold b.interface) (t.casefold a.interface) ≡ false) adapters
    × NameSorted t adapters

adapter_le-IsOrder : (t : Texts) → IsTextOrder t → IsOrder (adapter_le t)
unfolding adapter_le
adapter_le-IsOrder t o = record {
  total = λ x y h. ground (arith, o.asym (t.casefold y.interface) (t.casefold x.interface));
  trans = λ x y z h k.
      ground (
        arith,
        o.cotrans (t.casefold z.interface) (t.casefold y.interface) (t.casefold x.interface),
      );
}

adapter_le-names :
    (t : Texts) (a b : Adapter)
    → adapter_le t a b ≡ true
    → t.text_lt (t.casefold b.interface) (t.casefold a.interface) ≡ false
unfolding adapter_le
adapter_le-names t a b h = ground arith

IsSorted-NameSorted :
    (t : Texts) (adapters : List Adapter) → IsSorted (adapter_le t) adapters → NameSorted t adapters
IsSorted-NameSorted t [] h = tt
IsSorted-NameSorted t (a ∷ adapters) h = (
  All-weaken _ (λ b. t.text_lt (t.casefold b.interface) (t.casefold a.interface) ≡ false) adapters
      (adapter_le-names t a) h.0,
  IsSorted-NameSorted t adapters h.1,
)

collect_adapters-sorted :
    (t : Texts) (p : Psutil)
    → collect_adapters t p ≡ (
        p.net_if_addrs >>= λ addresses.
        p.net_if_stats >>= λ stats. ok (sorted (adapter_le t) (described_all t stats addresses)))
unfolding collect_adapters
collect_adapters-sorted t p = λ i. p.net_if_addrs >>= λ addresses. p.net_if_stats >>= λ stats.
    ok (sorted (adapter_le t) (scan_interfaces-described t stats addresses i))

adapters_inj : {a b : List Adapter} → ok a ≡ ok b → a ≡ b
adapters_inj h = cc

-- If `<` on texts is an order, then the adapters that are reported are, in some order, those of the
-- interfaces that have statistics whose isup is True, each with the first text among its IPv4
-- addresses and the first among its link addresses; and they are sorted by their names, case aside.
pub collect_adapters-described :
    (t : Texts) (p : Psutil) (reported : List Adapter)
    → IsTextOrder t
    → collect_adapters t p ≡ ok reported
    → (addresses : Dict (List InterfaceAddress)) × (stats : Dict InterfaceStats) × (found : List
        Adapter)
      × (p.net_if_addrs ≡ ok addresses)
      × (p.net_if_stats ≡ ok stats)
      × Described t stats addresses found
      × Perm reported found
      × NameSorted t reported
collect_adapters-described t p reported order h =
    let (addresses, has_addresses, k) =
      >>=-eq-ok p.net_if_addrs _ (rw (collect_adapters-sorted t p) at h) in
    let (stats, has_stats, l) = >>=-eq-ok p.net_if_stats _ k in
    let found = described_all t stats addresses in
    let same : sorted (adapter_le t) found ≡ reported = adapters_inj l in
    (
      addresses,
      stats,
      found,
      has_addresses,
      has_stats,
      described_all-Described t stats addresses,
      subst (λ xs. Perm xs found) same (sorted-Perm (adapter_le t) found),
      subst (NameSorted t) same (
          IsSorted-NameSorted t _
            (sorted-IsSorted (adapter_le t) (adapter_le-IsOrder t order) found)),
    )

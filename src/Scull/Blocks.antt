-- ===== src/Scull/Blocks.antt =====
-- The list of quantum sets of util.h in memory, and the blocks that it takes.
use mathlib.Core.Path.{subst}
use char_driver_scull.Base.{
  ℕ, ℤ, ◌≡◌, refl, ap, sym, ◌∙◌, true, false, Bool, Option, some, List, [], ◌∷◌, ◌++◌, arith, ◌==◌,
  Bool-cases, inl, inr, if◌then◌else◌, length,
}
use char_driver_scull.Scull.{Block, Heap, ScullDev, erase, rounds}
use char_driver_scull.Scull.Frees.{
  has, erase_all, AllQuanta, AllQuanta-frame, erase_all-ne, has-append,
}

-- A quantum set of the list: its address, and the array with its pointers to quanta.
pub record Node : Type 0 where
  pub addr : ℕ
  pub array : ℕ
  pub quanta : List ℕ

abbrev pub head_addr : List Node → ℕ
head_addr [] = 0
head_addr (n ∷ ns) = n.addr

abbrev pub array_blocks : Node → List ℕ
array_blocks n = if n.array == 0 then [] else n.quanta ++ (n.array ∷ [])

-- All addresses of the list, in the order in which they are freed.
abbrev pub footprint : List Node → List ℕ
footprint [] = []
footprint (n ∷ ns) = array_blocks n ++ (n.addr ∷ footprint ns)

-- The memory holds the list: `qset` pointers to a quantum set that has an array.
abbrev pub Owned : ℤ → Heap → List Node → Type 0
Owned qset h [] = Unit
Owned qset h (n ∷ ns) =
    ((n.addr == 0) ≡ false)
    × (h n.addr ≡ some (Block.node (record { array = n.array; next = head_addr ns })))
    × ((n.array == 0) ≡ false
        → (h n.array ≡ some (Block.pointers n.quanta))
          × (length n.quanta ≡ rounds qset)
          × AllQuanta h n.quanta)
    × Owned qset h ns

pub Owned-frame :
    (qset : ℤ) (h g : Heap) (ns : List Node)
    → ((a : ℕ) → has a (footprint ns) ≡ true → (a == 0) ≡ false → g a ≡ h a)
    → Owned qset h ns
    → Owned qset g ns
Owned-frame qset h g [] same o = tt
Owned-frame qset h g (n ∷ ns) same (nz, at, arr, rest) = (
  nz,
  same n.addr (ground (arith, has-append n.addr (array_blocks n) (n.addr ∷ footprint ns))) nz ∙ at,
  λ nza.
      let (e, l, o) = arr nza in
      (
        same n.array
              (ground (
                arith,
                has-append n.array (array_blocks n) (n.addr ∷ footprint ns),
                has-append n.array n.quanta (n.array ∷ []),
              ))
              nza
            ∙ e,
        l,
        AllQuanta-frame h g n.quanta
            (λ a i nz'.
              same a
                (ground (
                  arith,
                  has-append a (array_blocks n) (n.addr ∷ footprint ns),
                  has-append a n.quanta (n.array ∷ []),
                ))
                nz')
            o,
      ),
  Owned-frame qset h g ns
      (λ a i nz'.
        same a (ground (arith, has-append a (array_blocks n) (n.addr ∷ footprint ns))) nz')
      rest,
)

abbrev is_device : Option Block → Bool
is_device (some (Block.device d)) = true
is_device _ = false

device-other :
    (h : Heap) (dev q : ℕ) (d : ScullDev) (b : Block)
    → h dev ≡ some (Block.device d)
    → h q ≡ some b
    → is_device (some b) ≡ false
    → (dev == q) ≡ false
device-other h dev q d b at e other = elim (Bool-cases (dev == q)) [
  | inr apart ↦ apart
  | inl same ↦
      let px : dev ≡ q = ground arith in
      let is : is_device (some b) ≡ true = ap is_device (sym e ∙ ap h (sym px) ∙ at) in cc
]

-- A device is none of the list's blocks.
device-AllQuanta :
    (h : Heap) (qs : List ℕ) (dev : ℕ) (d : ScullDev)
    → h dev ≡ some (Block.device d)
    → (dev == 0) ≡ false
    → AllQuanta h qs
    → has dev qs ≡ false
device-AllQuanta h [] dev d at nz o = refl
device-AllQuanta h (q ∷ qs) dev d at nz o = elim (Bool-cases (q == 0)) [
  | inl z ↦ ground (arith, device-AllQuanta h qs dev d at nz o.1)
  | inr nq ↦ ground (
    arith,
    device-other h dev q d Block.quantum at (o.0 nq) refl,
    device-AllQuanta h qs dev d at nz o.1,
  )
]

device-footprint :
    (qset : ℤ) (h : Heap) (ns : List Node) (dev : ℕ) (d : ScullDev)
    → h dev ≡ some (Block.device d)
    → (dev == 0) ≡ false
    → Owned qset h ns
    → has dev (footprint ns) ≡ false
device-footprint qset h [] dev d at nz o = refl
device-footprint qset h (n ∷ ns) dev d at nz (na, node, arr, rest) =
    let node_off = device-other h dev n.addr d _ at node refl in
    let rest_off = device-footprint qset h ns dev d at nz rest in
    elim (Bool-cases (n.array == 0)) [
      | inl z ↦ rw z (ground (arith, node_off, rest_off))
      | inr nza ↦
          let (e, l, o) = arr nza in
          rw nza (
            ground (
              arith,
              has-append dev (n.quanta ++ (n.array ∷ [])) (n.addr ∷ footprint ns),
              has-append dev n.quanta (n.array ∷ []),
              device-AllQuanta h n.quanta dev d at nz o,
              device-other h dev n.array d _ at e refl,
              node_off,
              rest_off,
            ))
    ]

erase_all-null : (xs : List ℕ) (h : Heap) → erase_all xs h 0 ≡ h 0
erase_all-null [] h = refl
erase_all-null (x ∷ xs) h = erase_all-null xs (erase x h) ∙ ground arith

pub footprint-kept :
    (qset : ℤ) (h : Heap) (ns : List Node) (dev : ℕ) (d : ScullDev)
    → h dev ≡ some (Block.device d)
    → Owned qset h ns
    → erase_all (footprint ns) h dev ≡ h dev
footprint-kept qset h ns dev d at o = elim (Bool-cases (dev == 0)) [
  | inl z ↦
      let null : 0 ≡ dev = ground arith in
      subst (λ a. erase_all (footprint ns) h a ≡ h a) null (erase_all-null (footprint ns) h)
  | inr nz ↦ erase_all-ne (footprint ns) dev h (device-footprint qset h ns dev d at nz o)
]

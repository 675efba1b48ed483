-- ===== src/Scull/Trim.antt =====
-- `scull_trim` of util.c on a well-formed list of quantum sets.
use mathlib.Core.Path.{fun_ext}
use mathlib.Core.List.{append_assoc}
use char_driver_scull.Base.{
  ℕ, ℤ, zero, suc, ◌<◌, ◌≡◌, refl, ap, sym, ◌∙◌, pos, false, some, List, [], ◌∷◌, ◌++◌, arith, ◌==◌,
  Bool-cases, inl, inr, length,
}
use char_driver_scull.Kernel.{Event, World, Run, note}
use char_driver_scull.Kernel.Interface.{Call}
use char_driver_scull.Scull.{
  Vars, Block, Heap, ScullDev, store, erase, in_heap, rounds, free_quanta, free_array, trim_loop,
  scull_trim, quantum_size, qset_size,
}
use char_driver_scull.Scull.Frees.{
  has, Distinct, after_frees, erase_all, AllQuanta, kfree_lem, free_quanta_lem, erase_all-ne,
  after_frees-append, has-append, Distinct-append,
}
use char_driver_scull.Scull.Blocks.{
  Node, head_addr, array_blocks, footprint, Owned, Owned-frame, footprint-kept,
}

free_array_lem :
    (qset : ℤ) (n : Node) (next : ℕ) (w : World Vars)
    → (n.array == 0) ≡ false
    → w.vars.heap n.array ≡ some (Block.pointers n.quanta)
    → length n.quanta ≡ rounds qset
    → AllQuanta w.vars.heap n.quanta
    → Distinct (n.quanta ++ (n.array ∷ []))
    → (b : Block) → w.vars.heap n.addr ≡ some b
    → has n.addr (n.quanta ++ (n.array ∷ [])) ≡ false
    → free_array qset n.addr (record { array = n.array; next = next }) w
      ≡ Run.ok tt (
          let w' = after_frees (n.array ∷ []) (after_frees n.quanta w) in
          record w' {
            vars = in_heap (store n.addr (Block.node (record { array = 0; next = next }))) w'.vars;
          })
unfolding free_array
free_array_lem qset n next w nz e l o d b at off =
    let (dq, da, apart) = Distinct-append n.quanta (n.array ∷ []) d in
    let out : has n.array n.quanta ≡ false = apart n.array nz (ground arith) in
    let w' = after_frees n.quanta w in
    let kept : w'.vars.heap n.array ≡ some (Block.pointers n.quanta) =
      erase_all-ne n.quanta n.array w.vars.heap out ∙ e in
    let loop : free_quanta (rounds qset) 0 n.array w ≡ Run.ok tt w' =
      rw (← l) (free_quanta_lem n.array [] n.quanta w e o dq out) in
    let there : erase n.array w'.vars.heap n.addr ≡ some b =
      erase_all-ne (n.array ∷ []) n.addr w'.vars.heap
        (ground (arith, off, has-append n.addr n.quanta (n.array ∷ [])))
      ∙ erase_all-ne n.quanta n.addr w.vars.heap
          (ground (arith, off, has-append n.addr n.quanta (n.array ∷ [])))
      ∙ at in
    ground (arith, loop, kfree_lem n.array (Block.pointers n.quanta) w' (λ _. kept), there)

-- The store to a node does not matter once the node is freed.
erase-store : (p : ℕ) (b : Block) (h : Heap) → (p == 0) ≡ false → erase p (store p b h) ≡ erase p h
erase-store p b h nz = fun_ext λ a. ground arith

-- The memory and the calls after a round, of which the store to the node leaves no trace.
round_world :
    (n : Node) (b : Block) (w : World Vars)
    → (n.addr == 0) ≡ false
    → let w' = after_frees (n.array ∷ []) (after_frees n.quanta w) in
      record (note (Event.ran (Call.kfree n.addr)) w') {
        vars = in_heap (erase n.addr) (in_heap (store n.addr b) w'.vars);
      }
      ≡ after_frees ((n.quanta ++ (n.array ∷ [])) ++ (n.addr ∷ [])) w
round_world n b w nz =
    ap with_heap (erase-store n.addr b w'.vars.heap nz)
    ∙ sym (
        after_frees-append (n.quanta ++ (n.array ∷ [])) (n.addr ∷ []) w
        ∙ ap (after_frees (n.addr ∷ [])) (after_frees-append n.quanta (n.array ∷ []) w))
  where
    w' : World Vars
    w' = after_frees (n.array ∷ []) (after_frees n.quanta w)

    with_heap : Heap → World Vars
    with_heap h = record {
      log = Event.ran (Call.kfree n.addr) ∷ w'.log;
      vars = record w'.vars { heap = h };
    }

-- One round of the loop frees the quanta, the array and the node.
trim_loop_round :
    (fuel : ℕ) (qset : ℤ) (n : Node) (ns : List Node) (w : World Vars)
    → Owned qset w.vars.heap (n ∷ ns)
    → Distinct (footprint (n ∷ ns))
    → trim_loop (suc fuel) qset n.addr w
      ≡ trim_loop fuel qset (head_addr ns) (after_frees (array_blocks n ++ (n.addr ∷ [])) w)
unfolding trim_loop
trim_loop_round fuel qset n ns w (nz, at, arr, rest) d = elim (Bool-cases (n.array == 0)) [
  | inl z ↦
      let b = Block.node (record { array = n.array; next = head_addr ns }) in
      rw z (ground (arith, at, kfree_lem n.addr b w (λ _. at)))
  | inr nza ↦
      let (e, l, o) = arr nza in
      let parts = Distinct-append (array_blocks n) (n.addr ∷ footprint ns) d in
      let dist = parts.0 in
      let off = parts.2 n.addr nz (ground arith) in
      let off' : has n.addr (n.quanta ++ (n.array ∷ [])) ≡ false = rw nza at off in
      let whole : Distinct (n.quanta ++ (n.array ∷ [])) = rw nza at dist in
      let b = Block.node (record { array = 0; next = head_addr ns }) in
      rw nza (
        ground (arith, at, free_array_lem qset n (head_addr ns) w nza e l o whole _ at off')
        ∙ ap (trim_loop fuel qset (head_addr ns)) (round_world n b w nz))
]

trim_loop_lem :
    (fuel : ℕ) (qset : ℤ) (ns : List Node) (w : World Vars)
    → Owned qset w.vars.heap ns
    → Distinct (footprint ns)
    → length ns < fuel
    → trim_loop fuel qset (head_addr ns) w ≡ Run.ok tt (after_frees (footprint ns) w)
unfolding trim_loop
trim_loop_lem zero qset ns w o d h = absurd (omega arith)
trim_loop_lem (suc fuel) qset [] w o d h = refl
trim_loop_lem (suc fuel) qset (n ∷ ns) w o d h =
    let gone = array_blocks n ++ (n.addr ∷ []) in
    let whole : gone ++ footprint ns ≡ footprint (n ∷ ns) =
      append_assoc (array_blocks n) (n.addr ∷ []) (footprint ns) in
    let parts = Distinct-append gone (footprint ns) (rw whole d) in
    let kept =
      Owned-frame qset w.vars.heap (erase_all gone w.vars.heap) ns
        (λ a i nz. erase_all-ne gone a w.vars.heap (parts.2 a nz i)) o.3 in
    trim_loop_round fuel qset n ns w o d
    ∙ trim_loop_lem fuel qset ns (after_frees gone w) kept parts.1 (omega arith)
    ∙ ap (Run.ok tt)
        (sym (after_frees-append gone (footprint ns) w) ∙ ap (λ l. after_frees l w) whole)

-- `scull_trim` of a device whose list is well formed, with no address in it twice, on fuel above
-- the length of the list, returns 0. It frees each of the list's blocks once, quantum sets and
-- quanta and arrays, and nothing else, and leaves an empty device with the default sizes.
pub scull_trim_lem :
    (fuel dev : ℕ) (d : ScullDev) (ns : List Node) (w : World Vars)
    → w.vars.heap dev ≡ some (Block.device (record d { first = head_addr ns }))
    → Owned d.qset w.vars.heap ns
    → Distinct (footprint ns)
    → length ns < fuel
    → scull_trim fuel dev w
      ≡ Run.ok (pos 0) (
          let w' = after_frees (footprint ns) w in
          record w' {
            vars =
                in_heap
                  (store dev (
                    Block.device
                      (record d { first = 0; quantum = quantum_size; qset = qset_size; size = 0 })))
                  w'.vars;
          })
unfolding scull_trim
scull_trim_lem fuel dev d ns w at o dist h =
    let there = footprint-kept d.qset w.vars.heap ns dev _ at o ∙ at in
    ground (arith, at, trim_loop_lem fuel d.qset ns w o dist h, there)

-- ===== src/LinkedList/Tests.antt =====
-- Lists of three nodes at the addresses 1, 2 and 3, with nil at 0.
use cbasis.Base.{
  ℕ, ◌≡◌, ◌≢◌, ◌⊎◌, refl, Bool, true, ltb, if◌then◌else◌, List, [], ◌∷◌, arith, none, some,
}
use cbasis.LinkedList.{
  node, Heap, Handle, handle, chain_push, chain_pop, list_push, list_push_front, list_pop,
}
use cbasis.LinkedList.Single.{IsChain, IsList, Spells, chain_pop-chain_push, list_serves}
use cbasis.LinkedList.Seg.{IsBilist}
use cbasis.LinkedList.Ops.{insert_after, erase}
use cbasis.LinkedList.Commands.{
  Command, insert, push_back, push_front, remove, pop_back, pop_front, run, specified_run,
  specified, may_add, init, Owns, run-refines,
}

abbrev loose : Heap
loose a = if ltb a 4 then some (node 0 0) else none

abbrev in_use : ℕ → Bool
in_use a = ltb a 4

-- 1 leads to 2, and 3 stands alone.
abbrev two : Heap
two a = if ltb a 2 then some (node 2 0) else (if ltb a 4 then some (node 0 0) else none)

abbrev script : List Command
script = push_back 1 ∷ push_front 2 ∷ insert 2 3 ∷ remove 2 ∷ insert 0 2 ∷ pop_back ∷ pop_front ∷ []

two_is_list : IsList 0 two (handle 1 2) (1 ∷ 2 ∷ [])
two_is_list = record {
  chain = record {
    starts = refl;
    linked = (refl, (refl, tt));
    distinct = (refl, (refl, tt));
    not_null = refl;
  };
  finishes = refl;
}

chain_pop-chain_push_example :
    (g : Heap) × (chain_push 0 two 1 3 ≡ some (g, 3))
    × IsChain 0 g 3 (3 ∷ 1 ∷ 2 ∷ [])
    × (chain_pop 0 g 3 ≡ some 1)
    × IsChain 0 g 1 (1 ∷ 2 ∷ [])
chain_pop-chain_push_example =
    chain_pop-chain_push 0 two 1 3 (1 ∷ 2 ∷ []) (node 0 0) two_is_list.chain refl (omega arith) refl

list_serves_example :
    ((◌≡◌ {A = ℕ} 0 0 × Spells 0 (list_push 0 two (handle 1 2) 3) (1 ∷ 2 ∷ 3 ∷ []))
      ⊎ (◌≢◌ {A = ℕ} 0 0 × (list_push 0 two (handle 1 2) 3 ≡ none)))
    × Spells 0 (list_push_front 0 two (handle 1 2) 3) (3 ∷ 1 ∷ 2 ∷ [])
    × ((m : Handle) × (list_pop 0 two (handle 1 2) ≡ some m) × IsList 0 two m (2 ∷ []))
list_serves_example =
    list_serves 0 two (handle 1 2) (1 ∷ 2 ∷ []) 3 (node 0 0) two_is_list refl (omega arith) refl

empty-IsBilist : IsBilist 0 loose (handle 0 0) []
empty-IsBilist = record {
  starts = refl;
  finishes = refl;
  linked = tt;
  distinct = tt;
  not_null = refl;
}

loose_owned : Owns 0 in_use loose
loose_owned a m = (node 0 0, ground arith)

run-refines_example :
    (g : Heap) × (m : Handle) × (run 0 true script loose (handle 0 0)
      ≡ some ((g, m), true ∷ true ∷ true ∷ true ∷ true ∷ true ∷ true ∷ []))
    × IsBilist 0 g m (3 ∷ [])
    × Owns 0 in_use g
unfolding specified_run specified may_add insert_after erase init
run-refines_example =
    run-refines 0 in_use true script loose (handle 0 0) [] (3 ∷ [])
      (true ∷ true ∷ true ∷ true ∷ true ∷ true ∷ true ∷ []) loose_owned empty-IsBilist refl

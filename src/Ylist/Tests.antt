-- ===== src/Ylist/Tests.antt =====
-- src/list.c: a list of two items.
use ylib.Base.{◌*◌, ◌≡◌, refl, true, [], ◌∷◌, ◌==◌, if◌then◌else◌, arith}
use ylib.Ylist.{Ylist, backward, accepted, add_last, add_first}
use ylib.Ylist.Ends.{Holds, Removed, peek_end, remove_end, adds-Holds, removes-Holds}

-- the head 1, and the nodes 3 and 2
abbrev two_nodes : Ylist
two_nodes = record {
  mem = record {
    next = λ i. if i == 1 then 3 else if i == 3 then 2 else if i == 2 then 1 else 0;
    prev = λ i. if i == 1 then 2 else if i == 2 then 3 else if i == 3 then 1 else 0;
  };
  head = 1;
  item = λ i. i * 10;
  sz = 2;
  max = 3;
}

two_nodes-Holds : Holds two_nodes (3 ∷ 2 ∷ []) (30 ∷ 20 ∷ [])
two_nodes-Holds = record {
  listed = record { links = ground arith; distinct = ground arith };
  contents = refl;
  counted = refl;
  narrow = omega arith;
}

adds-Holds_example :
    ((add_last two_nodes 5 50).0 ≡ accepted)
    × Holds (add_last two_nodes 5 50).1 (3 ∷ 2 ∷ 5 ∷ []) (30 ∷ 20 ∷ 50 ∷ [])
    × ((add_first two_nodes 5 50).0 ≡ accepted)
    × Holds (add_first two_nodes 5 50).1 (5 ∷ 3 ∷ 2 ∷ []) (50 ∷ 30 ∷ 20 ∷ [])
adds-Holds_example =
    adds-Holds two_nodes (3 ∷ 2 ∷ []) (30 ∷ 20 ∷ []) 5 50 two_nodes-Holds refl
      (λ e. absurd (omega arith)) (λ e. absurd (omega arith)) (ground arith) (omega arith)

removes-Holds_example :
    (peek_end backward two_nodes ≡ 20)
    × Removed true 20 (3 ∷ []) (30 ∷ []) (remove_end backward two_nodes true)
removes-Holds_example =
    removes-Holds two_nodes 2 20 (3 ∷ []) (30 ∷ []) true backward two_nodes-Holds

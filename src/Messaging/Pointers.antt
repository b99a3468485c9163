-- ===== src/Messaging/Pointers.antt =====
-- messaging/memory/store.go: a pointer only moves forward.
use flipchat_server.Base.{
  if◌then◌else◌, ◌==◌, Bytes, bytes_eq, bytes_lt, insert, lookup-insert, lookup_or, ◌≡◌, refl, Bool,
  true, ◌&&◌, Option, none, some, List, [], ◌∷◌, map, arith,
}
use flipchat_server.Messaging.{
  PointerType, Pointer, UserPointer, Store, pointer_type_eq, pointers_of, advance, advance_pointer,
  get_pointers,
}

-- The value of the first pointer of a type.
abbrev pub value_of : PointerType → List Pointer → Option Bytes
value_of k [] = none
value_of k (p ∷ ps) = if p.kind == k then some p.value else value_of k ps

-- Whether a pointer that is not there yet, or has a value, moves to a new value.
abbrev pub moves : Option Bytes → Bytes → Bool
moves none v = true
moves (some w) v = bytes_lt w v

-- The later of two values.
abbrev pub later : Option Bytes → Bytes → Option Bytes
later o v = if moves o v then some v else o

advance_lem :
    (u : Bytes) (p : Pointer) (k : PointerType) (ps : List UserPointer)
    → let (moved, ps') = advance u p ps in
      let old = map (λ q. q.pointer) ps in
      (moved ≡ moves (value_of p.kind old) p.value)
      × (value_of k (map (λ q. q.pointer) ps')
          ≡ (if p.kind == k then later (value_of k old) p.value else value_of k old))
unfolding advance
advance_lem u p k [] = (ground arith, ground arith)
advance_lem u p k (q ∷ ps) = let rest = advance_lem u p k ps in (ground arith, ground arith)

-- A call of `AdvancePointer`.
pub record Advance : Type 0 where
  pub chat_id : Bytes
  pub user_id : Bytes
  pub pointer : Pointer

unfoldable pub advance_all : List Advance → Store → Store
advance_all [] m = m
advance_all (a ∷ as') m = advance_all as' (advance_pointer a.chat_id a.user_id a.pointer m).1

-- The latest value among the calls for one chat, user and type of pointer, and the value before.
abbrev pub newest : Bytes → Bytes → PointerType → Option Bytes → List Advance → Option Bytes
newest c u k o [] = o
newest c u k o (a ∷ as') =
    newest c u k
      (if a.chat_id == c && ((a.user_id == u) && (a.pointer.kind == k))
        then later o a.pointer.value
        else o)
      as'

-- `AdvancePointer` reports whether the pointer of its type moved, which it does exactly when there
-- was none or its value was before the new one; it changes no other pointer.
pub get_pointers-advance_pointer :
    (c d u w : Bytes) (p : Pointer) (k : PointerType) (m : Store)
    → let (moved, m') = advance_pointer c u p m in
      let old = value_of k (get_pointers d w m) in
      (moved ≡ moves (value_of p.kind (get_pointers c u m)) p.value)
      × (value_of k (get_pointers d w m')
          ≡ (if c == d && ((u == w) && (p.kind == k)) then later old p.value else old))
unfolding advance_pointer get_pointers
get_pointers-advance_pointer c d u w p k m =
    let ps = pointers_of c u m in
    let ps' = (advance u p ps).1 in
    let users = lookup_or c [] m.pointers in
    (
      ground (arith, advance_lem u p k ps),
      ground (
        arith,
        advance_lem u p k ps,
        lookup-insert c d (insert u ps' users) m.pointers,
        lookup-insert u w ps' users,
      ),
    )

-- After any sequence of `AdvancePointer` calls, in any order and for any chats and users, each
-- pointer has the latest value among the calls for it and the value it had before.
pub get_pointers-advance_all :
    (as' : List Advance) (c u : Bytes) (k : PointerType) (m : Store)
    → value_of k (get_pointers c u (advance_all as' m))
      ≡ newest c u k (value_of k (get_pointers c u m)) as'
unfolding advance_all
get_pointers-advance_all [] c u k m = refl
get_pointers-advance_all (a ∷ as') c u k m =
    rw
      (
        get_pointers-advance_all as' c u k (advance_pointer a.chat_id a.user_id a.pointer m).1,
        (get_pointers-advance_pointer a.chat_id c a.user_id u a.pointer k m).1,
      )
      refl

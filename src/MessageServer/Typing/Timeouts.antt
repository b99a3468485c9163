-- ===== src/MessageServer/Typing/Timeouts.antt =====
-- messaging/server.go: who is typing, and who is timed out.
use flipchat_server.Auth.{Refusal, failed, can_notify_is_typing}
use flipchat_server.Backend.{Backend, authorizer}
use flipchat_server.Event.{TypingState}
use flipchat_server.MessageServer.Typing.{
  Typists, key_eq, is_client_state, goes_on, note_typing, notify_is_typing, is_timed_out,
  timed_out_keys, erase_all, time_out,
}
use flipchat_server.Base.{
  leb, if◌then◌else◌, ◌==◌, nat_eq, Bool-cases, Bytes, bytes_eq, lookup, insert, erase,
  lookup-insert, lookup-erase, contains, Result-cases, Time, ◌-◌, ◌*◌, ◌^◌, ◌≡◌, refl, inl, inr,
  false, none, some, List, [], ◌∷◌, arith,
}

-- Every key is in the map once.
pub IsMap : Typists → Type 0
IsMap [] = Unit
IsMap ((key, t) ∷ d) = (lookup key d ≡ none) × IsMap d

insert-IsMap : (key : Bytes × Bytes) (t : Time) (d : Typists) → IsMap d → IsMap (insert key t d)
unfolding IsMap insert lookup
insert-IsMap key t [] v = (refl, tt)
insert-IsMap key t ((j, s) ∷ d) (fresh, v) = elim (Bool-cases (j == key)) [
  | inl same ↦ ground (arith, fresh, v)
  | inr apart ↦ ground (arith, fresh, insert-IsMap key t d v, lookup-insert key j t d)
]

erase-IsMap : (key : Bytes × Bytes) (d : Typists) → IsMap d → IsMap (erase key d)
unfolding IsMap erase
erase-IsMap key [] v = tt
erase-IsMap key ((j, s) ∷ d) (fresh, v) = elim (Bool-cases (j == key)) [
  | inl same ↦ ground (arith, erase-IsMap key d v)
  | inr apart ↦ ground (arith, fresh, erase-IsMap key d v, lookup-erase key j d)
]

erase_all-IsMap : (keys : List (Bytes × Bytes)) (d : Typists) → IsMap d → IsMap (erase_all keys d)
unfolding erase_all
erase_all-IsMap [] d v = v
erase_all-IsMap (key ∷ keys) d v = erase_all-IsMap keys (erase key d) (erase-IsMap key d v)

lookup-erase_all :
    (keys : List (Bytes × Bytes)) (key : Bytes × Bytes) (d : Typists)
    → lookup key (erase_all keys d) ≡ (if contains key keys then none else lookup key d)
unfolding erase_all contains
lookup-erase_all [] key d = refl
lookup-erase_all (k ∷ keys) key d =
    ground (arith, lookup-erase_all keys key (erase k d), lookup-erase k key d)

contains-timed_out_keys :
    (now : Time) (key : Bytes × Bytes) (d : Typists)
    → IsMap d
    → contains key (timed_out_keys now d)
      ≡ elim (lookup key d) [ none ↦ false | some t ↦ is_timed_out now t ]
unfolding timed_out_keys contains IsMap lookup
contains-timed_out_keys now key [] v = refl
contains-timed_out_keys now key ((j, t) ∷ d) (fresh, v) = elim (Bool-cases (j == key)) [
  | inl same ↦ ground (arith, contains-timed_out_keys now key d v, fresh)
  | inr apart ↦ ground (arith, contains-timed_out_keys now key d v)
]

-- The calls that change who is typing.
pub data TypingCall : Type 0 where
  notifies : Bytes → TypingState → Time → Bytes → Backend → TypingCall
  times_out : Time → Backend → TypingCall

pub run_typing : List TypingCall → Typists → Typists
run_typing [] d = d
run_typing (notifies c state now u s ∷ calls) d =
    run_typing calls (notify_is_typing c state now u s d).1
run_typing (times_out now s ∷ calls) d = run_typing calls (time_out now s d).1

notify_is_typing-IsMap :
    (c : Bytes) (state : TypingState) (now : Time) (u : Bytes) (s : Backend) (d : Typists)
    → IsMap d
    → IsMap (notify_is_typing c state now u s d).1
unfolding notify_is_typing note_typing
notify_is_typing-IsMap c state now u s d v =
    let erased = erase-IsMap (c, u) d v in
    let added = insert-IsMap (c, u) now (erase (c, u) d) erased in
    elim (Bool-cases (is_client_state state)) [
      | inr rejected ↦ ground (arith, v)
      | inl accepted ↦ elim (Result-cases (can_notify_is_typing c u (authorizer s))) [
        | inr (failed, refused) ↦ ground (arith, v)
        | inr (Refusal.denied r, refused) ↦ ground (arith, v)
        | inl (o, allowed) ↦ elim (Bool-cases (goes_on state)) [
          | inl typing ↦ ground (arith, added)
          | inr stopped ↦ ground (arith, erased)
        ]
      ]
    ]

run_typing-IsMap : (calls : List TypingCall) (d : Typists) → IsMap d → IsMap (run_typing calls d)
unfolding run_typing time_out
run_typing-IsMap [] d v = v
run_typing-IsMap (times_out now s ∷ calls) d v =
    run_typing-IsMap calls _ (erase_all-IsMap (timed_out_keys now d) d v)
run_typing-IsMap (notifies c state now u s ∷ calls) d v =
    run_typing-IsMap calls _ (notify_is_typing-IsMap c state now u s d v)

-- After any calls, a round of the worker at some time forgets exactly the users that were last seen
-- typing a minute ago or longer, and keeps the others.
pub time_out-lookup :
    (calls : List TypingCall) (now : Time) (s : Backend) (key : Bytes × Bytes)
    → let d = run_typing calls [] in
      lookup key (time_out now s d).1 ≡ elim (lookup key d) [
        | none ↦ none
        | some t ↦ if leb (60 * 10 ^ 9) (now - t) then none else some t
      ]
unfolding time_out IsMap
time_out-lookup calls now s key =
    let d = run_typing calls [] in
    let v = run_typing-IsMap calls [] tt in
    ground
      (arith, lookup-erase_all (timed_out_keys now d) key d, contains-timed_out_keys now key d v)

-- ===== src/Messaging/Examples.antt =====
-- Runs of the message store, and its theorems at concrete inputs.
use flipchat_server.Base.{
  Bytes, bytes_discrete, bytes_eq, bytes_lt, lookup, insert, take, sort, Time, pos, ◌≡◌, refl,
  false, none, some, List, [], ◌∷◌,
}
use flipchat_server.Query.{with_limit, with_token, apply_options}
use flipchat_server.Messaging.{
  text, Message, Draft, read, Store, new_in_memory, messages_of, get_paged_messages, put_message,
  pointer_type_discrete, pointer_type_eq, advance_pointer, get_pointers,
}
use flipchat_server.Messaging.Sorting.{
  IsAscending, Put, put_all, HasFreshIds, put_all-new-IsAscending,
}
use flipchat_server.Messaging.Paging.{get_paged_messages-asc}
use flipchat_server.Messaging.Pointers.{
  value_of, Advance, advance_all, newest, get_pointers-advance_all,
}

abbrev room : Bytes
room = 5 ∷ []

abbrev alice : Bytes
alice = 1 ∷ []

abbrev bob : Bytes
bob = 2 ∷ []

abbrev draft : Draft
draft = record {
  message_id = none;
  sender_id = some alice;
  content = text (104 ∷ 105 ∷ []);
  ts = none;
  was_sender_off_stage = false;
}

abbrev message : Bytes → Time → Message
message id now = record {
  message_id = id;
  sender_id = some alice;
  content = text (104 ∷ 105 ∷ []);
  ts = now;
  was_sender_off_stage = false;
}

abbrev put : Bytes → Time → Put
put id now = record { chat_id = room; draft = draft; id = id; now = now }

-- The second id is the least.
abbrev puts : List Put
puts = put (3 ∷ []) 10 ∷ put (1 ∷ []) 11 ∷ put (4 ∷ []) 12 ∷ []

abbrev reached : Store
reached = record {
  messages = (room, message (1 ∷ []) 11 ∷ message (3 ∷ []) 10 ∷ message (4 ∷ []) 12 ∷ []) ∷ [];
  pointers = [];
}

put_all-puts : put_all puts new_in_memory ≡ reached
unfolding put_all put_message lookup insert sort bytes_lt bytes_discrete
put_all-puts = refl

puts_fresh : HasFreshIds puts
puts_fresh = (((λ e. cc), ((λ e. cc), tt)), (((λ e. cc), tt), (tt, tt)))

reached-IsAscending : IsAscending (messages_of room reached)
unfolding lookup bytes_lt bytes_discrete
reached-IsAscending = ((refl, (refl, tt)), ((refl, tt), (tt, tt)))

put_all-new-IsAscending_example : IsAscending (messages_of room (put_all puts new_in_memory))
put_all-new-IsAscending_example = put_all-new-IsAscending puts room puts_fresh

get_paged_messages-asc_example :
    get_paged_messages room (with_token (some (1 ∷ [])) ∷ with_limit (pos 1) ∷ []) reached
    ≡ take 1 (message (3 ∷ []) 10 ∷ message (4 ∷ []) 12 ∷ [])
unfolding lookup bytes_discrete apply_options with_token with_limit bytes_lt
get_paged_messages-asc_example =
    get_paged_messages-asc room (with_token (some (1 ∷ [])) ∷ with_limit (pos 1) ∷ []) []
      (message (3 ∷ []) 10 ∷ message (4 ∷ []) 12 ∷ []) (message (1 ∷ []) 11) reached refl
      reached-IsAscending refl refl

abbrev advances : List Advance
advances =
    record { chat_id = room; user_id = bob; pointer = record { kind = read; value = 3 ∷ [] } }
    ∷ record { chat_id = room; user_id = bob; pointer = record { kind = read; value = 1 ∷ [] } }
    ∷ record { chat_id = room; user_id = alice; pointer = record { kind = read; value = 4 ∷ [] } }
    ∷ []

get_pointers-advances :
    get_pointers room bob (advance_all advances reached)
    ≡ record { kind = read; value = 3 ∷ [] } ∷ []
unfolding get_pointers advance_all advance_pointer lookup insert bytes_lt bytes_discrete
    pointer_type_discrete
get_pointers-advances = refl

get_pointers-advance_all_example :
    value_of read (get_pointers room bob (advance_all advances reached))
    ≡ newest room bob read (value_of read (get_pointers room bob reached)) advances
get_pointers-advance_all_example = get_pointers-advance_all advances room bob read reached

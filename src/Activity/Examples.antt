-- ===== src/Activity/Examples.antt =====
-- Two tips for one message.
use flipchat_server.Activity.{send_tip, new_in_memory, new_send_tip}
use flipchat_server.Activity.Tips.{tip_all, total, tips_of, tips_add_up}
use flipchat_server.Base.{Bytes, bytes_eq, lookup, keep, ◌+◌, ◌%◌, ◌^◌, ◌≡◌, refl, [], ◌∷◌, arith}

abbrev hash : Bytes → Bytes
hash value = value

nothing_yet : tips_of hash (1 ∷ []) (5 ∷ []) (3 ∷ []) new_in_memory ≡ []
unfolding tips_of keep lookup
nothing_yet = refl

tips_add_up_example :
    let first = new_send_tip hash (1 ∷ []) (5 ∷ []) (3 ∷ []) 100 10 in
    tips_of hash
      (1 ∷ [])
      (5 ∷ [])
      (3 ∷ [])
      (tip_all hash (1 ∷ []) (5 ∷ []) (3 ∷ []) ((100, 10) ∷ (50, 20) ∷ []) new_in_memory)
    ≡ record first { details = send_tip (5 ∷ []) (3 ∷ []) ((100 + total ((50, 20) ∷ [])) % 2 ^ 64) }
      ∷ []
tips_add_up_example =
    tips_add_up hash (1 ∷ []) (5 ∷ []) (3 ∷ []) 100 10 ((50, 20) ∷ []) new_in_memory nothing_yet
      (omega arith)

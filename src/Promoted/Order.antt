-- ===== src/Promoted/Order.antt =====
-- promoted/memory/store.go: the order of the promoted chats, and what a chat id of a new request
-- finds.
use flipchat_server.Base.{
  if◌then◌else◌, ◌==◌, nat_eq, Bool-cases, Bytes, bytes_eq, lookup-insert, length, keep, All,
  insert_sorted, sort, err, Time, pos, ℕ, suc, ◌≤◌, ◌≡◌, refl, inl, inr, Bool, false, none, some,
  List, [], ◌∷◌, ◌++◌, arith,
}
use flipchat_server.Promoted.{
  not_found, ChatRef, PromotedChat, Store, chats_of, with_chats, higher, get_promoted_chats,
  rescore, promote_valid, promote_chat, remove_ref, demote_chat,
}

length-keep-insert_sorted :
    (p : PromotedChat → Bool) (c : PromotedChat) (cs : List PromotedChat)
    → length (keep p (insert_sorted higher c cs)) ≡ length (keep p (c ∷ cs))
unfolding insert_sorted keep
length-keep-insert_sorted p c [] = refl
length-keep-insert_sorted p c (x ∷ cs) = ground (arith, length-keep-insert_sorted p c cs)

length-keep-sort :
    (p : PromotedChat → Bool) (cs : List PromotedChat)
    → length (keep p (sort higher cs)) ≡ length (keep p cs)
unfolding sort keep
length-keep-sort p [] = refl
length-keep-sort p (c ∷ cs) =
    ground (arith, length-keep-insert_sorted p c (sort higher cs), length-keep-sort p cs)

length-keep-append :
    (p : PromotedChat → Bool) (c : PromotedChat) (cs : List PromotedChat)
    → length (keep p (cs ++ c ∷ []))
      ≡ (if p c then suc (length (keep p cs)) else length (keep p cs))
unfolding keep
length-keep-append p c [] = ground arith
length-keep-append p c (x ∷ cs) = ground (arith, length-keep-append p c cs)

-- No chat has the pointer as its id.
unfoldable pub IsFresh : ℕ → List PromotedChat → Type 0
IsFresh a = All (λ c. (c.chat_id.address == a) ≡ false)

rescore-fresh :
    (a score : ℕ) (now : Time) (cs : List PromotedChat)
    → IsFresh a cs
    → rescore a score now cs ≡ none
unfolding rescore IsFresh
rescore-fresh a score now [] f = refl
rescore-fresh a score now (c ∷ cs) f = ground (arith, rescore-fresh a score now cs f.1)

remove_ref-fresh : (a : ℕ) (cs : List PromotedChat) → IsFresh a cs → remove_ref a cs ≡ none
unfolding remove_ref IsFresh
remove_ref-fresh a [] f = refl
remove_ref-fresh a (c ∷ cs) f = ground (arith, remove_ref-fresh a cs f.1)

-- How often a chat is promoted under a topic.
abbrev pub promotions : Bytes → Bytes → Store → ℕ
promotions v topic m = length (keep (λ c. c.chat_id.value == v) (get_promoted_chats topic m))

-- A chat id of a new request is a pointer that no promoted chat has. By it, promoting a chat adds
-- it once more, though it may be promoted already, and demoting a chat fails, though it may be
-- promoted.
pub promotions-fresh :
    (r : ChatRef) (topic : Bytes) (score : ℕ) (now : Time) (m : Store)
    → IsFresh r.address (chats_of topic m)
    → (length topic == 0) ≡ false
    → (promotions r.value topic (promote_chat (some r) topic (pos score) now m).1
        ≡ suc (promotions r.value topic m))
      × (demote_chat (some r) topic m ≡ (err not_found, m))
unfolding get_promoted_chats promote_chat promote_valid with_chats demote_chat
promotions-fresh r topic score now m fresh valid =
    let cs = chats_of topic m in
    let p : PromotedChat → Bool = λ c. c.chat_id.value == r.value in
    let missing = rescore-fresh r.address score now cs fresh in
    let kept = remove_ref-fresh r.address cs fresh in
    let chat : PromotedChat = record {
      chat_id = r;
      score = score;
      topic = topic;
      created_at = now;
      updated_at = now;
    } in
    let written = lookup-insert topic topic (cs ++ chat ∷ []) m.chats_by_topic in
    let before = length-keep-sort p cs in
    let after = length-keep-sort p (cs ++ chat ∷ []) in
    let added = length-keep-append p chat cs in (ground arith, ground arith)

-- Scores fall from one chat to the next.
pub IsDescending : List PromotedChat → Type 0
IsDescending [] = Unit
IsDescending (c ∷ cs) = All (λ x. x.score ≤ c.score) cs × IsDescending cs

All-insert_sorted :
    (P : PromotedChat → Type 0) (c : PromotedChat) (cs : List PromotedChat)
    → P c
    → All P cs
    → All P (insert_sorted higher c cs)
unfolding insert_sorted
All-insert_sorted P c [] h hs = (h, tt)
All-insert_sorted P c (x ∷ cs) h hs = elim (Bool-cases (higher c x)) [
  | inl above ↦ rw above (h, hs)
  | inr below ↦ rw below (hs.0, All-insert_sorted P c cs h hs.1)
]

All-below :
    (a b : ℕ) (cs : List PromotedChat)
    → a ≤ b
    → All (λ x. x.score ≤ a) cs
    → All (λ x. x.score ≤ b) cs
All-below a b [] le hs = tt
All-below a b (c ∷ cs) le hs = (omega (arith, hs.0), All-below a b cs le hs.1)

insert_sorted-IsDescending :
    (c : PromotedChat) (cs : List PromotedChat)
    → IsDescending cs
    → IsDescending (insert_sorted higher c cs)
unfolding insert_sorted IsDescending
insert_sorted-IsDescending c [] v = (tt, tt)
insert_sorted-IsDescending c (x ∷ cs) v = elim (Bool-cases (higher c x)) [
  | inl above ↦
      let le : x.score ≤ c.score = ground arith in
      rw above ((le, All-below x.score c.score cs le v.0), v)
  | inr below ↦
      let le : c.score ≤ x.score = ground arith in
      rw below (
        All-insert_sorted (λ y. y.score ≤ x.score) c cs le v.0,
        insert_sorted-IsDescending c cs v.1,
      )
]

sort-IsDescending : (cs : List PromotedChat) → IsDescending (sort higher cs)
unfolding sort IsDescending
sort-IsDescending [] = tt
sort-IsDescending (c ∷ cs) = insert_sorted-IsDescending c (sort higher cs) (sort-IsDescending cs)

-- `GetPromotedChats` returns the chats of the topic with the highest scores first, each as often
-- as it is stored.
pub get_promoted_chats-IsDescending :
    (topic v : Bytes) (m : Store)
    → IsDescending (get_promoted_chats topic m)
      × (promotions v topic m ≡ length (keep (λ c. c.chat_id.value == v) (chats_of topic m)))
unfolding get_promoted_chats
get_promoted_chats-IsDescending topic v m = (
  sort-IsDescending (chats_of topic m),
  length-keep-sort (λ c. c.chat_id.value == v) (chats_of topic m),
)

-- ===== src/Server/Actions/Chat.antt =====
-- The chat of src/server.rs after a message.
use woodland_sh.Base.{
  ℕ, zero, suc, ◌+◌, ◌-◌, ◌%◌, ◌^◌, min, List, [], ◌∷◌, ◌++◌, length, length-append, length-drop,
  take, drop, String, Result, ok, err, ◌≡◌, refl, ap, arith,
}
use woodland_sh.Server.{ApiError}
use woodland_sh.Server.Actions.{
  AppState, MultiplayerState, ChatMessage, ChatRequest, Surroundings, push_message, add_message,
  post_chat, authorize_action, max_chat_messages, Handled,
}
use woodland_sh.Server.Actions.Replay.{chat_action, authorize_action_lem}

take-drop {ℓ} : {A : Type ℓ} (k : ℕ) (xs : List A) → take k xs ++ drop k xs ≡ xs
take-drop zero xs = refl
take-drop (suc k) [] = refl
take-drop (suc k) (x ∷ xs) = ap (λ rest. x ∷ rest) (take-drop k xs)

-- What a posted message does to the chat.
pub record IsPosted (text : String) (before after : MultiplayerState) (message : ChatMessage)
    : Type 0 where
  pub forgotten : List ChatMessage
  pub latest : forgotten ++ after.chat ≡ before.chat ++ (message ∷ [])
  pub kept : length after.chat ≡ min max_chat_messages (length before.chat + 1)
  pub text_kept : message.message ≡ text
  pub id : message.id ≡ before.next_chat_id
  pub next_id : after.next_chat_id ≡ (before.next_chat_id + 1) % 2 ^ 64

add_message-IsPosted :
    (before : MultiplayerState) (player_asset text : String) (now_ms : ℕ)
    → let added = add_message before player_asset text now_ms in
      IsPosted text before added.0 added.1
unfolding add_message push_message
add_message-IsPosted before player_asset text now_ms =
    let added = add_message before player_asset text now_ms in
    let longer = before.chat ++ (added.1 ∷ []) in
    record {
      forgotten = take (length longer - max_chat_messages) longer;
      latest = take-drop (length longer - max_chat_messages) longer;
      kept = omega (
        arith,
        length-drop (length longer - max_chat_messages) longer,
        length-append before.chat (added.1 ∷ []),
      );
      text_kept = refl;
      id = refl;
      next_id = refl;
    }

-- A message that is posted stands last in the chat, under the next identifier, and the chat keeps the
-- latest 200 messages, or all where there are fewer.
pub post_chat-IsPosted :
    (around : Surroundings) (state after : AppState) (r : ChatRequest) (message : ChatMessage)
    → post_chat around state r ≡ (after, ok message)
    → IsPosted r.message state.multiplayer after.multiplayer message
unfolding post_chat
post_chat-IsPosted around state after r message h =
    answered (authorize_action around state (chat_action r)).1 refl
  where
    p : Handled (String × String)
    p = authorize_action around state (chat_action r)

    answered :
        (answer : Result ApiError (String × String))
        → p.1 ≡ answer
        → IsPosted r.message state.multiplayer after.multiplayer message
    answered (err e) h' = absurd (ground arith)
    answered (ok names) h' =
        let added = add_message p.0.multiplayer names.1 r.message around.written_at_ms in
        let posted = add_message-IsPosted p.0.multiplayer names.1 r.message around.written_at_ms in
        let (_, same) = (authorize_action_lem around state (chat_action r)).1 names h' in
        let out : (after.multiplayer ≡ added.0) × (message ≡ added.1) = ground arith in
        record {
          forgotten = posted.forgotten;
          latest = ground (arith, posted.latest);
          kept = ground (arith, posted.kept);
          text_kept = ground (arith, posted.text_kept);
          id = ground (arith, posted.id);
          next_id = ground (arith, posted.next_id);
        }

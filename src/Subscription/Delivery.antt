-- ===== src/Subscription/Delivery.antt =====
-- What a client gets of send_notification, and what is left of a client that is gone.
use ubervisor.Common.{
  ℕ, ◌<◌, ◌≤◌, ◌≡◌, inl, inr, refl, sym, ap, ◌∙◌, true, false, ◌&&◌, List, [], ◌∷◌, ◌++◌, some,
  arith, append_assoc, append-nil, ltb, ltb→le, ◌==◌, ==_iff, if◌then◌else◌, Bool-cases, Str,
  length,
}
use ubervisor.Wire.{chunksiz, htons, raw16, Bufferevent, Socket, put, reply, read_reply}
use ubervisor.Wire.Frames.{write_chunk-output, write_chunk-succeeds}
use ubervisor.Wire.Client.{read_reply-chunk}
use ubervisor.Subscription.{
  Subscription, subscription_remove_for_client, asks_for, notify_one, notify_all, send_notification,
}

-- The subscriptions of a client to a kind of notification, in the order of the list.
abbrev pub subscribed : ℕ → ℕ → List Subscription → List Subscription
subscribed c n [] = []
subscribed c n (s ∷ l) =
    if s.s_client == c && asks_for n s then s ∷ subscribed c n l else subscribed c n l

-- One message for each of them.
abbrev pub notices : Str → List Subscription → List ℕ
notices ret [] = []
notices ret (s ∷ l) = (htons (length ret) ++ (raw16 s.s_cid ++ ret)) ++ notices ret l

subscribed-subscription_remove_for_client :
    (c n : ℕ) (l : List Subscription) → subscribed c n (subscription_remove_for_client c l) ≡ []
unfolding subscription_remove_for_client
subscribed-subscription_remove_for_client c n [] = refl
subscribed-subscription_remove_for_client c n (s ∷ l) =
    ground (arith, subscribed-subscription_remove_for_client c n l)

module _ (lib : Bufferevent) where
  open lib use {Handle, output, bufferevent_write}

  module _ (n : ℕ) (ret : Str) where
    notify_one-other :
        (s : Subscription) (be : ℕ → Handle) (c : ℕ)
        → (s.s_client == c && asks_for n s) ≡ false
        → notify_one lib n ret s be c ≡ be c
    unfolding notify_one
    notify_one-other s be c other = ground arith

    notify_all-other :
        (l : List Subscription) (be : ℕ → Handle) (c : ℕ)
        → subscribed c n l ≡ []
        → notify_all lib n ret l be c ≡ be c
    unfolding notify_all
    notify_all-other [] be c none_for = refl
    notify_all-other (s ∷ l) be c none_for = elim (Bool-cases (s.s_client == c && asks_for n s)) [
      | inl mine ↦ absurd (ground arith)
      | inr other ↦
          notify_all-other l (notify_one lib n ret s be) c (ground arith)
          ∙ notify_one-other s be c other
    ]

    module _ (written : (b : Handle) (x : List ℕ) → (bufferevent_write b x).0 ≡ true) where
      notify_one-output :
          (s : Subscription) (be : ℕ → Handle) (c : ℕ)
          → output (notify_one lib n ret s be c)
            ≡ output (be c)
              ++ (if s.s_client == c && asks_for n s
                  then htons (length ret) ++ (raw16 s.s_cid ++ ret)
                  else [])
      unfolding notify_one
      notify_one-output s be c = elim (Bool-cases (s.s_client == c && asks_for n s)) [
        | inl mine ↦ ground (
          arith,
          write_chunk-output lib (be s.s_client) (htons (length ret)) (raw16 s.s_cid) ret,
          write_chunk-succeeds lib written (be s.s_client) (htons (length ret)) (raw16 s.s_cid) ret,
          ==_iff s.s_client c,
        )
        | inr other ↦ rw other (ap output (notify_one-other s be c other) ∙ sym (append-nil _))
      ]

      notify_all-output :
          (l : List Subscription) (be : ℕ → Handle) (c : ℕ)
          → output (notify_all lib n ret l be c) ≡ output (be c) ++ notices ret (subscribed c n l)
      unfolding notify_all
      notify_all-output [] be c = sym (append-nil _)
      notify_all-output (s ∷ l) be c =
          notify_all-output l (notify_one lib n ret s be) c
          ∙ rw (notify_one-output s be c) (elim (Bool-cases (s.s_client == c && asks_for n s)) [
            | inl mine ↦
                rw mine
                  (append_assoc (output (be c)) (htons (length ret) ++ (raw16 s.s_cid ++ ret)) _)
            | inr other ↦ rw (other, append-nil (output (be c))) refl
          ])

  -- A client whose connection was dropped is not written to, whatever is sent after: none of its
  -- subscriptions is left that could lead to its freed buffer. This holds where writes fail too.
  pub send_notification-subscription_remove_for_client :
      (n : ℕ) (ret : Str) (c : ℕ) (l : List Subscription) (be be' : ℕ → Handle)
      → send_notification lib n ret (subscription_remove_for_client c l) be ≡ some be'
      → be' c ≡ be c
  unfolding send_notification
  send_notification-subscription_remove_for_client n ret c l be be' e =
      let left = subscription_remove_for_client c l in
      let same : notify_all lib n ret left be ≡ be' = ground arith in
      rw (← same)
        (notify_all-other n ret left be c (subscribed-subscription_remove_for_client c n l))

  sent-fits :
      (n : ℕ) (ret : Str) (l : List Subscription) (be be' : ℕ → Handle)
      → send_notification lib n ret l be ≡ some be'
      → length ret ≤ chunksiz
  unfolding send_notification
  sent-fits n ret l be be' e = elim (Bool-cases (ltb chunksiz (length ret))) [
    | inl long ↦ absurd (ground arith)
    | inr short ↦ ltb→le chunksiz (length ret) short
  ]

  module _ (written : (b : Handle) (x : List ℕ) → (bufferevent_write b x).0 ≡ true) where
    -- Where no write fails, send_notification appends to the buffer of each client one message for each
    -- of its subscriptions to the kind that is sent, with the cid of that subscription, and nothing else.
    pub send_notification-output :
        (n : ℕ) (ret : Str) (l : List Subscription) (be be' : ℕ → Handle) (c : ℕ)
        → send_notification lib n ret l be ≡ some be'
        → output (be' c) ≡ output (be c) ++ notices ret (subscribed c n l)
    unfolding send_notification
    send_notification-output n ret l be be' c e =
        let same : notify_all lib n ret l be ≡ be' = ground arith in
        rw (← same) (notify_all-output n ret written l be c)

    -- Where no write fails, the message is not empty and all that was written comes to the client in one piece, a client
    -- that had nothing to read and has subscribed to the kind that is sent reads the message
    -- with read_reply, whole and in one reply; the messages of its further subscriptions are left on the
    -- socket.
    pub read_reply-send_notification :
        (n : ℕ) (ret : Str) (l : List Subscription) (be be' : ℕ → Handle) (c : ℕ) (s : Subscription)
        (rest : List Subscription) (sock : Socket)
        → send_notification lib n ret l be ≡ some be'
        → 0 < length ret
        → output (be c) ≡ []
        → subscribed c n l ≡ s ∷ rest
        → read_reply (put (output (be' c)) sock) ≡ some (reply ret (put (notices ret rest) sock))
    read_reply-send_notification n ret l be be' c s rest sock e some_text empty its =
        let out : output (be' c) ≡ notices ret (s ∷ rest) =
          send_notification-output n ret l be be' c e ∙ rw (empty, its) refl in
        rw out (
          read_reply-chunk s.s_cid ret (notices ret rest) sock some_text
            (sent-fits n ret l be be' e))

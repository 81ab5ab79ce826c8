-- ===== src/Subscription/Tests.antt =====
-- Notifications on buffers that never fail.
use ubervisor.Common.{ℕ, ◌≡◌, refl, List, [], ◌∷◌, ◌++◌, some, arith, codes}
use ubervisor.Wire.{put, reply, read_reply}
use ubervisor.Wire.Tests.{memory}
use ubervisor.Subscription.{
  Subscription, subs_status, subs_server, subscription_remove_for_client, asks_for, notify_one,
  notify_all, send_notification,
}
use ubervisor.Subscription.Delivery.{
  subscribed, notices, send_notification-subscription_remove_for_client, send_notification-output,
  read_reply-send_notification,
}

-- Client 5 has subscribed to the log and the status under the cid 7, client 6 to the log.
abbrev both : Subscription
both = record { s_client = 5; s_ident = 3; s_cid = 7 }

abbrev log : Subscription
log = record { s_client = 6; s_ident = 1; s_cid = 8 }

abbrev two : List Subscription
two = both ∷ log ∷ []

abbrev nothing_sent : ℕ → List ℕ
nothing_sent c = []

abbrev all_sent : ℕ → List ℕ
all_sent = notify_all memory subs_status (codes "hi") two nothing_sent

all_sent_is : send_notification memory subs_status (codes "hi") two nothing_sent ≡ some all_sent
unfolding send_notification
all_sent_is = refl

abbrev rest_sent : ℕ → List ℕ
rest_sent =
    notify_all memory subs_server (codes "hi") (subscription_remove_for_client 5 two) nothing_sent

rest_sent_is :
    send_notification memory subs_server
      (codes "hi")
      (subscription_remove_for_client 5 two)
      nothing_sent
    ≡ some rest_sent
unfolding send_notification
rest_sent_is = refl

send_notification-subscription_remove_for_client_example : rest_sent 5 ≡ []
send_notification-subscription_remove_for_client_example =
    send_notification-subscription_remove_for_client memory subs_server (codes "hi") 5 two
      nothing_sent rest_sent rest_sent_is

send_notification-output_example :
    all_sent 5 ≡ [] ++ notices (codes "hi") (subscribed 5 subs_status two)
send_notification-output_example =
    send_notification-output memory (λ b x. refl) subs_status (codes "hi") two nothing_sent all_sent
      5 all_sent_is

is_subscribed : subscribed 5 subs_status two ≡ both ∷ []
unfolding asks_for
is_subscribed = refl

read_reply-send_notification_example :
    read_reply (put (all_sent 5) []) ≡ some (reply (codes "hi") (put [] []))
read_reply-send_notification_example =
    read_reply-send_notification memory (λ b x. refl) subs_status (codes "hi") two nothing_sent
      all_sent 5 both [] [] all_sent_is (omega arith) refl is_subscribed

-- the other client gets nothing
others_silent : all_sent 6 ≡ []
unfolding notify_all notify_one asks_for
others_silent = refl

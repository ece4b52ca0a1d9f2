-- ===== src/Tests/Mail.antt =====
-- A message that is accepted and delivered.
use vault_keeper.Prelude.{◌≡◌, ◌≤◌, refl, [], ◌∷◌, ◌++◌, length}
use vault_keeper.Notifications.Mail.{
  EmailMessage, EmailSender, queue_size, new_email_sender, start, send, deliver, starts, takes,
  Reached, fresh, sent, stepped,
}
use vault_keeper.Notifications.Queued.{Reached-Accounted}

abbrev message : EmailMessage
message = record { to = "u@court"; subject = "s"; html_body = "b"; text_body = "b" }

abbrev before : EmailSender
before = (send message (start (new_email_sender "host" "vault"))).1

reached : Reached "host" "vault" (message ∷ []) (deliver message [] before)
unfolding new_email_sender start send
reached =
    stepped (sent (stepped fresh (starts (new_email_sender "host" "vault") refl)) message)
      (takes before message [] refl refl)

Reached-Accounted_example :
    ((deliver message [] before).delivered ++ (deliver message [] before).queue ≡ message ∷ [])
    × (length (deliver message [] before).queue ≤ queue_size)
Reached-Accounted_example =
    Reached-Accounted "host" "vault" (message ∷ []) (deliver message [] before) reached

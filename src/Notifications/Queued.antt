-- ===== src/Notifications/Queued.antt =====
-- Every message that was accepted is delivered or in the queue.
use mathlib.Core.List.{append_assoc}
use vault_keeper.Prelude.{
  ◌≤◌, String, ◌≡◌, refl, sym, ap, ◌∙◌, List, [], ◌∷◌, ◌++◌, arith, ltb, ◌==◌, string_eq, length,
  length-append, Bool-cases, inl, inr,
}
use vault_keeper.Notifications.Mail.{
  EmailMessage, EmailSender, queue_size, new_email_sender, start, send, deliver, Step, starts,
  stops, takes, sees_stop, drains, returns, accepted, Reached, fresh, sent, stepped,
}

abbrev pub Accounted : List EmailMessage → EmailSender → Type 0
Accounted ms s = (s.delivered ++ s.queue ≡ ms) × (length s.queue ≤ queue_size)

deliver-Accounted :
    (ms : List EmailMessage) (s : EmailSender) (m : EmailMessage) (rest : List EmailMessage)
    → s.queue ≡ m ∷ rest
    → Accounted ms s
    → Accounted ms (deliver m rest s)
deliver-Accounted ms s m rest q (h, l) = (
  append_assoc s.delivered (m ∷ []) rest ∙ ap (λ xs. s.delivered ++ xs) (sym q) ∙ h,
  omega (arith, l, ap length q),
)

Step-Accounted :
    (ms : List EmailMessage) {s t : EmailSender} → Step s t → Accounted ms s → Accounted ms t
unfolding start
Step-Accounted ms (starts s w) h = elim (Bool-cases (s.host == "")) [
  | inl y ↦ rw (y, start) h
  | inr n ↦ rw (n, start) h
]
Step-Accounted ms (stops s w) h = h
Step-Accounted ms (takes s m rest w q) h = deliver-Accounted ms s m rest q h
Step-Accounted ms (sees_stop s w v) h = h
Step-Accounted ms (drains s m rest w q) h = deliver-Accounted ms s m rest q h
Step-Accounted ms (returns s w q) h = h

send-Accounted :
    (ms : List EmailMessage) (m : EmailMessage) (s : EmailSender)
    → Accounted ms s
    → Accounted (accepted m s ms) (send m s).1
unfolding send
send-Accounted ms m s (h, l) = elim (Bool-cases (s.host == "")) [
  | inl y ↦ rw (y, send) (h, l)
  | inr n ↦ elim (Bool-cases (ltb (length s.queue) queue_size)) [
    | inr full ↦ rw (n, send, full) (h, l)
    | inl room ↦
        rw (n, send, room)
          (
            sym (append_assoc s.delivered s.queue (m ∷ [])) ∙ ap (λ xs. xs ++ (m ∷ [])) h,
            ground (arith, room, length-append s.queue (m ∷ [])),
          )
  ]
]

-- After any calls and steps in any order, the messages that were delivered, and after them those in
-- the queue, are those that were accepted, in their order, none lost and none twice; the queue keeps
-- its size.
pub Reached-Accounted :
    (host from : String) (ms : List EmailMessage) (s : EmailSender)
    → Reached host from ms s
    → (s.delivered ++ s.queue ≡ ms) × (length s.queue ≤ queue_size)
unfolding new_email_sender
Reached-Accounted host from _ _ fresh = (refl, omega arith)
Reached-Accounted host from _ _ (sent {ms} {s} r m) =
    send-Accounted ms m s (Reached-Accounted host from ms s r)
Reached-Accounted host from _ _ (stepped {ms} {s} {t} r w) =
    Step-Accounted ms w (Reached-Accounted host from ms s r)

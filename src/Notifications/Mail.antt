-- ===== src/Notifications/Mail.antt =====
-- email.go: the queue of mail, its worker, and the text of a message.
use Prim.Native.Char.{Char, code}
use Prim.Native.String.{String, [] as end_of_text, ◌∷◌ as letter, ◌++◌ as append}
use vault_keeper.Prelude.{
  ℕ, Bool, true, false, ◌||◌, List, [], ◌∷◌, ◌++◌, Result, ok, err, ◌≡◌, ltb, ◌==◌, nat_eq,
  string_eq, if◌then◌else◌, length,
}

pub record EmailMessage : Type 0 where
  pub to : String
  pub subject : String
  pub html_body : String
  pub text_body : String

-- Where the worker stands: not started, in its loop, past the stop, or returned.
pub data Phase : Type 0 where
  waiting running draining done : Phase

-- `delivered` are the messages that `deliver` was called with, the first one first.
pub record EmailSender : Type 0 where
  pub host : String
  pub from : String
  pub queue : List EmailMessage
  pub stopped : Bool
  pub phase : Phase
  pub delivered : List EmailMessage

abbrev pub queue_size : ℕ
queue_size = 256

unfoldable pub new_email_sender : String → String → EmailSender
new_email_sender host from = record {
  host = host;
  from = from;
  queue = [];
  stopped = false;
  phase = waiting;
  delivered = [];
}

unfoldable pub start : EmailSender → EmailSender
start s = if s.host == "" then s else record s { phase = running }

-- Without a host nothing is sent; a full queue drops the message.
unfoldable pub send : EmailMessage → EmailSender → Result (Unit {0}) (Unit {0}) × EmailSender
send m s =
    if s.host == ""
    then (ok tt, s)
    else if ltb (length s.queue) queue_size
    then (ok tt, record s { queue = s.queue ++ (m ∷ []) })
    else (err tt, s)

abbrev pub deliver : EmailMessage → List EmailMessage → EmailSender → EmailSender
deliver m ms s = record s { queue = ms; delivered = s.delivered ++ (m ∷ []) }

-- What the worker, and whoever starts and stops it, may do next. In the loop a `select` with a
-- message and the stop at hand takes either.
pub data Step : EmailSender → EmailSender → Type 0 where
  starts : (s : EmailSender) → s.phase ≡ waiting → Step s (start s)
  stops : (s : EmailSender) → s.stopped ≡ false → Step s (record s { stopped = true })
  takes :
      (s : EmailSender) (m : EmailMessage) (ms : List EmailMessage)
      → s.phase ≡ running
      → s.queue ≡ m ∷ ms
      → Step s (deliver m ms s)
  sees_stop :
      (s : EmailSender)
      → s.phase ≡ running
      → s.stopped ≡ true
      → Step s (record s { phase = draining })
  drains :
      (s : EmailSender) (m : EmailMessage) (ms : List EmailMessage)
      → s.phase ≡ draining
      → s.queue ≡ m ∷ ms
      → Step s (deliver m ms s)
  returns :
      (s : EmailSender) → s.phase ≡ draining → s.queue ≡ [] → Step s (record s { phase = done })

-- The messages that a call of `Send` put into the queue, after those before it.
abbrev pub accepted : EmailMessage → EmailSender → List EmailMessage → List EmailMessage
accepted m s ms =
    if s.host == "" then ms else if ltb (length s.queue) queue_size then ms ++ (m ∷ []) else ms

-- A sender as any sequence of calls and steps leaves it, with the messages that were accepted.
pub data Reached (host from : String) : List EmailMessage → EmailSender → Type 0 where
  fresh : Reached host from [] (new_email_sender host from)
  sent :
      {ms : List EmailMessage} {s : EmailSender}
      → Reached host from ms s
      → (m : EmailMessage) → Reached host from (accepted m s ms) (send m s).1
  stepped :
      {ms : List EmailMessage} {s t : EmailSender}
      → Reached host from ms s
      → Step s t
      → Reached host from ms t

abbrev pub breaks_line : Char → Bool
breaks_line c = code c == 13 || code c == 10

-- `ReplaceAll` of a single character by nothing, for both.
unfoldable pub sanitize_header : String → String
sanitize_header end_of_text = end_of_text
sanitize_header (letter c s) =
    let rest = sanitize_header s in if breaks_line c then rest else letter c rest

abbrev lines : List String → String
lines [] = ""
lines (l ∷ ls) = append l (append "\r\n" (lines ls))

-- The text that `deliver` hands to the SMTP client; the boundary is random.
unfoldable pub mail_text : String → EmailSender → EmailMessage → String
mail_text boundary s m = lines (
    append "From: " (sanitize_header s.from)
    ∷ append "To: " (sanitize_header m.to)
    ∷ append "Subject: " (sanitize_header m.subject)
    ∷ "MIME-Version: 1.0"
    ∷ append "Content-Type: multipart/alternative; boundary=\"" (append boundary "\"")
    ∷ ""
    ∷ append "--" boundary
    ∷ "Content-Type: text/plain; charset=\"utf-8\""
    ∷ ""
    ∷ m.text_body
    ∷ append "--" boundary
    ∷ "Content-Type: text/html; charset=\"utf-8\""
    ∷ ""
    ∷ m.html_body
    ∷ append "--" (append boundary "--")
    ∷ [])

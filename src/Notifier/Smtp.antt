-- ===== src/Notifier/Smtp.antt =====
-- internal/services/email-notifier/mailer.go: Send, by TLS or by smtp.SendMail. Whether the server offers
-- AUTH is a parameter, since the answer of Extension is the server's.
use pingerus.Base.{Bool, not, ◌&&◌, ◌++◌, if◌then◌else◌}
use pingerus.Text.{Text, codes, is_empty, trim_space}
use pingerus.World.{World, Op, call, take_mail, ◌>>=◌, ◌>>◌}
use pingerus.World.Errors.{ok}
use pingerus.World.Rows.{Mail}

-- Mailer; `auth` is whether it has an smtp.Auth.
pub record Mailer : Type 0 where
  pub auth : Bool
  pub use_tls : Bool
  pub from : Text
  pub subj_prefix : Text
  pub offers_auth : World → Bool

-- The settings that New reads.
pub record Smtp : Type 0 where
  pub user : Text
  pub password : Text
  pub use_tls : Bool
  pub from : Text
  pub subj_prefix : Text

-- New
unfoldable pub new_mailer : Smtp → (World → Bool) → Mailer
new_mailer cfg offers_auth = record {
  auth = not (is_empty cfg.user && is_empty cfg.password);
  use_tls = cfg.use_tls;
  from = cfg.from;
  subj_prefix = cfg.subj_prefix;
  offers_auth = offers_auth;
}

abbrev crlf : Text
crlf = codes "\r\n"

module _ (m : Mailer) where
  unfoldable pub subject_line : Text → Text
  unfolding trim_space
  subject_line subject = trim_space (m.subj_prefix ++ (codes " " ++ subject))

  unfoldable pub content_of : Text → Text → Text → Text
  unfolding subject_line
  content_of recipient subject body =
      codes "From: "
      ++ (m.from
          ++ (crlf
              ++ (codes "To: "
                  ++ (recipient
                      ++ (crlf
                          ++ (codes "Subject: "
                              ++ (subject_line subject
                                  ++ (crlf
                                      ++ (codes "Content-Type: text/plain; charset=utf-8"
                                          ++ (crlf ++ (crlf ++ (body ++ crlf))))))))))))

  abbrev pub mail_of : Text → Text → Text → Mail
  mail_of recipient subject body = record {
    recipient = recipient;
    content = content_of recipient subject body;
  }

  -- c.Auth, if there is something to show and the server asks for it.
  unfoldable pub authenticate : Op (Unit {0})
  unfolding call
  authenticate w = if m.auth && m.offers_auth w then call w else (ok tt, w)

  -- The TLS dialogue: dial, greeting, AUTH, MAIL, RCPT, DATA, the text and its end.
  unfoldable pub send_tls : Mail → Op (Unit {0})
  unfolding authenticate call take_mail ◌>>=◌
  send_tls mail = do call; call; authenticate; call; call; call; call; take_mail mail

  -- smtp.SendMail: the server takes the mail or the call fails before that; then comes QUIT, and an error
  -- of it is returned although the mail was taken.
  unfoldable pub send_mail : Mail → Op (Unit {0})
  unfolding call take_mail ◌>>=◌
  send_mail mail = do take_mail mail; call

  unfoldable pub send : Text → Text → Text → Op (Unit {0})
  unfolding send_tls send_mail content_of
  send recipient subject body =
      let mail = mail_of recipient subject body in
      if m.use_tls then send_tls mail else send_mail mail

-- ===== src/Smtp.antt =====
-- internal/infra/smtp/client.go: one email over go-mail, which is a parameter, as the network is.
use software_engineering_sch.Prelude.{
  ℕ, String, Bool, Option, none, some, ◌==◌, ◌*◌, Error, Result, ok, err,
}

-- The options of mail.NewClient; a timeout is in nanoseconds.
pub record Options : Type 0 where
  pub port : ℕ
  pub username : String
  pub password : String
  pub timeout : ℕ
  pub ssl : Bool

-- What go-mail makes of a message and of a client's options, and what sending does to the world.
pub record Mail (M D W : Type 0) : Type 0 where
  pub new_msg : M
  pub from : String → M → Option Error × M
  pub from_format : String → String → M → Option Error × M
  pub to : String → M → Option Error × M
  pub subject : String → M → M
  pub set_body : String → M → M
  pub new_client : String → Options → Result D
  pub dial_and_send : D → M → W → Option Error × W

-- `Client`
pub record Client : Type 0 where
  pub host : String
  pub port : ℕ
  pub username : String
  pub password : String
  pub from : String
  pub sender_email : String

-- Port 465 is the one with implicit TLS.
unfoldable pub options : Client → Options
options c = record {
  port = c.port;
  username = c.username;
  password = c.password;
  timeout = 15 * 1000000000;
  ssl = c.port == 465;
}

module _ {M D W : Type 0} (lib : Mail M D W) (c : Client) where
  -- The first of two calls on a message that does not fail.
  abbrev or_else : Option Error × M → (M → Option Error × M) → Option Error × M
  or_else (none, m) other_call = (none, m)
  or_else (some e, m) other_call = other_call m

  -- A full address, or a name with the sender's address, or the address alone.
  unfoldable pub set_from : M → Option Error × M
  set_from m =
      or_else (lib.from c.from m)
        λ m'. or_else (lib.from_format c.from c.sender_email m') λ m''. lib.from c.sender_email m''

  unfoldable pub send_with : Result D → M → W → Option Error × W
  send_with (err e) m w = (some e, w)
  send_with (ok client) m w = lib.dial_and_send client m w

  unfoldable pub send_to : String → String → Option Error × M → W → Option Error × W
  unfolding send_with options
  send_to subject body (some e, m) w = (some e, w)
  send_to subject body (none, m) w =
      send_with (lib.new_client c.host (options c)) (lib.set_body body (lib.subject subject m)) w

  unfoldable pub address : String → String → String → Option Error × M → W → Option Error × W
  unfolding send_to
  address to subject body (some e, m) w = (some e, w)
  address to subject body (none, m) w = send_to subject body (lib.to to m) w

  unfoldable pub send_email : String → String → String → W → Option Error × W
  unfolding set_from address
  send_email to subject body w = address to subject body (set_from lib.new_msg) w

  -- Either the network is asked once to send a message, or not at all and an error is returned.
  pub data Sends (w : W) : Option Error × W → Type 0 where
    asked : (client : D) (m : M) → Sends w (lib.dial_and_send client m w)
    refused : (e : Error) → Sends w (some e, w)

  send_with-Sends : (r : Result D) (m : M) (w : W) → Sends w (send_with r m w)
  unfolding send_with
  send_with-Sends (err e) m w = refused e
  send_with-Sends (ok client) m w = asked client m

  send_to-Sends :
      (subject body : String) (r : Option Error × M) (w : W) → Sends w (send_to subject body r w)
  unfolding send_to
  send_to-Sends subject body (some e, m) w = refused e
  send_to-Sends subject body (none, m) w =
      send_with-Sends (lib.new_client c.host (options c))
        (lib.set_body body (lib.subject subject m)) w

  address-Sends :
      (to subject body : String) (r : Option Error × M) (w : W)
      → Sends w (address to subject body r w)
  unfolding address
  address-Sends to subject body (some e, m) w = refused e
  address-Sends to subject body (none, m) w = send_to-Sends subject body (lib.to to m) w

  -- An email is handed to the network at most once, and not at all only with an error.
  pub send_email-Sends : (to subject body : String) (w : W) → Sends w (send_email to subject body w)
  unfolding send_email
  send_email-Sends to subject body w = address-Sends to subject body (set_from lib.new_msg) w

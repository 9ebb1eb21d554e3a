-- ===== src/Interfaces/Mac.antt =====
-- The text of a hardware address.
use smart_ac.Base.{
  ℕ, ◌+◌, ◌-◌, ◌*◌, ◌/◌, ◌%◌, ◌<◌, ◌≡◌, refl, ap, ap, ◌∙◌, true, Bool, leb, ◌&&◌, ◌||◌, Option,
  some, [], ◌∷◌, ◌++◌, Bytes, ltb, if◌then◌else◌, length, arith,
}
use smart_ac.Interfaces.{Ioctl, ifr_name, hex_digit, hex_byte, mac_string, mac_text, get_iface_mac}
use smart_ac.Outcome.{Outcome, ok}
use smart_ac.Safe.{safe_strdup}

-- The number that an upper-case hexadecimal digit stands for.
abbrev pub digit_value : ℕ → ℕ
digit_value c = if ltb c b'A' then c - b'0' else c - b'A' + 10

-- The bytes that pairs of digits stand for.
unfoldable pub read_hex : Bytes → Bytes
read_hex [] = []
read_hex (high ∷ []) = []
read_hex (high ∷ low ∷ cs) = (digit_value high * 16 + digit_value low) ∷ read_hex cs

digit_value-hex_digit : (n : ℕ) → n < 16 → digit_value (hex_digit n) ≡ n
unfolding hex_digit
digit_value-hex_digit n h = ground arith

read_hex-byte : (b : ℕ) (cs : Bytes) → b < 256 → read_hex (hex_byte b ++ cs) ≡ b ∷ read_hex cs
unfolding read_hex hex_byte
read_hex-byte b cs h =
    rw (digit_value-hex_digit (b / 16) (omega arith), digit_value-hex_digit (b % 16) (omega arith))
      (ap (λ x. x ∷ read_hex cs) (omega arith))

abbrev pub six_bytes : ℕ → ℕ → ℕ → ℕ → ℕ → ℕ → Bytes
six_bytes a b c d e f = a ∷ b ∷ c ∷ d ∷ e ∷ f ∷ []

abbrev digits : ℕ → ℕ → ℕ → ℕ → ℕ → ℕ → Bytes
digits a b c d e f =
    hex_byte a ++ (hex_byte b ++ (hex_byte c ++ (hex_byte d ++ (hex_byte e ++ (hex_byte f ++ [])))))

read_hex-digits :
    (a b c d e f : ℕ)
    → a < 256
    → b < 256
    → c < 256
    → d < 256
    → e < 256
    → f < 256
    → read_hex (digits a b c d e f) ≡ six_bytes a b c d e f
unfolding read_hex
read_hex-digits a b c d e f ha hb hc hd he hf =
    read_hex-byte a _ ha
    ∙ ap (λ t. a ∷ t) (read_hex-byte b _ hb)
    ∙ ap (λ t. a ∷ b ∷ t) (read_hex-byte c _ hc)
    ∙ ap (λ t. a ∷ b ∷ c ∷ t) (read_hex-byte d _ hd)
    ∙ ap (λ t. a ∷ b ∷ c ∷ d ∷ t) (read_hex-byte e _ he)
    ∙ ap (λ t. a ∷ b ∷ c ∷ d ∷ e ∷ t) (read_hex-byte f [] hf)

-- From 0 to 9, or from A to F.
abbrev pub is_hex_digit : ℕ → Bool
is_hex_digit c = leb b'0' c && leb c b'9' || leb b'A' c && leb c b'F'

abbrev pub all_hex_digits : Bytes → Bool
all_hex_digits [] = true
all_hex_digits (c ∷ cs) = is_hex_digit c && all_hex_digits cs

hex_digit-is_hex_digit : (n : ℕ) → n < 16 → is_hex_digit (hex_digit n) ≡ true
unfolding hex_digit
hex_digit-is_hex_digit n h = ground arith

hex_byte-all :
    (b : ℕ) (cs : Bytes)
    → b < 256
    → all_hex_digits cs ≡ true
    → all_hex_digits (hex_byte b ++ cs) ≡ true
unfolding hex_byte
hex_byte-all b cs h rest =
    rw
      (hex_digit-is_hex_digit (b / 16) (omega arith), hex_digit-is_hex_digit (b % 16) (omega arith))
      rest

all-digits :
    (a b c d e f : ℕ)
    → a < 256
    → b < 256
    → c < 256
    → d < 256
    → e < 256
    → f < 256
    → all_hex_digits (digits a b c d e f) ≡ true
all-digits a b c d e f ha hb hc hd he hf = hex_byte-all a _ ha (
    hex_byte-all b _ hb
      (hex_byte-all c _ hc (hex_byte-all d _ hd (hex_byte-all e _ he (hex_byte-all f [] hf refl)))))

-- The text that `get_iface_mac` returns: twelve hexadecimal digits that stand for the six bytes.
abbrev pub IsMac : Bytes → Outcome (Option Bytes) → Type 0
IsMac hwaddr result =
    (text : Bytes) × (result ≡ ok (some text))
    × (length text ≡ 12)
    × (all_hex_digits text ≡ true)
    × (read_hex text ≡ hwaddr)

-- Where there is a socket, memory for the string, and `ioctl` stores the six bytes of the hardware address
-- of the interface and more behind them, `get_iface_mac` returns a text of twelve digits, each from 0 to 9
-- or from A to F, out of which these six bytes can be read back: nothing is cut off by the array of 13
-- bytes that it is printed into.
pub get_iface_mac-IsMac :
    (ioctl : Ioctl) (ifname : Bytes) (a b c d e f : ℕ) (more : Bytes)
    → ioctl (ifr_name ifname) ≡ some (six_bytes a b c d e f ++ more)
    → a < 256
    → b < 256
    → c < 256
    → d < 256
    → e < 256
    → f < 256
    → IsMac (six_bytes a b c d e f) (get_iface_mac true true ioctl ifname)
unfolding get_iface_mac mac_text mac_string safe_strdup hex_byte
get_iface_mac-IsMac ioctl ifname a b c d e f more at ha hb hc hd he hf = rw at (
  digits a b c d e f,
  refl,
  refl,
  all-digits a b c d e f ha hb hc hd he hf,
  read_hex-digits a b c d e f ha hb hc hd he hf,
)

-- ===== src/Events.antt =====
-- The contract of the event order.placed (src/messaging/events.ts). An id of the database is the
-- number that its digits spell; a time is in milliseconds, where the event has its ISO text.
-- SHA-1 and the printing of an id are parameters.
pub mod Schema
use node_js_nest_course_proj.Money.{Amount}
use Prim.Native.Nat.{bit_and, bit_or}
use Prim.Native.String
use node_js_nest_course_proj.Base.{ℕ, zero, suc, ◌/◌, ◌%◌, String, List, [], ◌∷◌, take, drop}

pub record OrderData : Type 0 where
  pub order_id : ℕ
  pub buyer_id : ℕ
  pub product_id : ℕ
  pub quantity : ℕ
  pub total_amount : Amount

pub record OrderPlacedEvent : Type 0 where
  pub event_id : String
  pub type : String
  pub occurred_at : ℕ
  pub body : OrderData

-- The argument of `toOrderPlacedEvent`.
pub record PlacedOrder : Type 0 where
  pub id : ℕ
  pub buyer_id : ℕ
  pub product_id : ℕ
  pub quantity : ℕ
  pub total_amount : Amount
  pub placed_at : ℕ

-- `h[i] = f(h[i])` on the bytes of a digest
unfoldable pub update_byte : (ℕ → ℕ) → ℕ → List ℕ → List ℕ
update_byte f i [] = []
update_byte f zero (b ∷ h) = f b ∷ h
update_byte f (suc i) (b ∷ h) = b ∷ update_byte f i h

abbrev pub version_bits : ℕ → ℕ
version_bits b = bit_or (bit_and b 0x0f) 0x50

abbrev pub variant_bits : ℕ → ℕ
variant_bits b = bit_or (bit_and b 0x3f) 0x80

-- The hexadecimal digits of the bytes, as numbers below 16: `toString('hex')`.
unfoldable pub hex : List ℕ → List ℕ
hex [] = []
hex (b ∷ h) = b / 16 ∷ b % 16 ∷ hex h

-- One hexadecimal digit as a text.
unfoldable pub digit_text : ℕ → String
digit_text zero = "0"
digit_text (suc zero) = "1"
digit_text (suc (suc zero)) = "2"
digit_text (suc (suc (suc zero))) = "3"
digit_text (suc (suc (suc (suc zero)))) = "4"
digit_text (suc (suc (suc (suc (suc zero))))) = "5"
digit_text (suc (suc (suc (suc (suc (suc zero)))))) = "6"
digit_text (suc (suc (suc (suc (suc (suc (suc zero))))))) = "7"
digit_text (suc (suc (suc (suc (suc (suc (suc (suc zero)))))))) = "8"
digit_text (suc (suc (suc (suc (suc (suc (suc (suc (suc zero))))))))) = "9"
digit_text (suc (suc (suc (suc (suc (suc (suc (suc (suc (suc zero)))))))))) = "a"
digit_text (suc (suc (suc (suc (suc (suc (suc (suc (suc (suc (suc zero))))))))))) = "b"
digit_text (suc (suc (suc (suc (suc (suc (suc (suc (suc (suc (suc (suc zero)))))))))))) = "c"
digit_text (suc (suc (suc (suc (suc (suc (suc (suc (suc (suc (suc (suc (suc zero))))))))))))) = "d"
digit_text
      (suc (suc (suc (suc (suc (suc (suc (suc (suc (suc (suc (suc (suc (suc zero)))))))))))))) =
    "e"
digit_text _ = "f"

unfoldable pub digits_text : List ℕ → String
unfolding digit_text
digits_text [] = ""
digits_text (d ∷ ds) = String.◌++◌ (digit_text d) (digits_text ds)

abbrev pub dashed : List ℕ → String
dashed hex_digits = String.◌++◌ (digits_text (take 8 hex_digits)) (
    String.◌++◌ "-" (
      String.◌++◌ (digits_text (take 4 (drop 8 hex_digits))) (
        String.◌++◌ "-" (
          String.◌++◌ (digits_text (take 4 (drop 12 hex_digits))) (
            String.◌++◌ "-" (
              String.◌++◌ (digits_text (take 4 (drop 16 hex_digits)))
                (String.◌++◌ "-" (digits_text (take 12 (drop 20 hex_digits))))))))))

-- The sixteen bytes of the identifier: the digest with its version and variant set.
unfoldable pub uuid_bytes : List ℕ → List ℕ
unfolding update_byte
uuid_bytes digest = take 16 (update_byte variant_bits 8 (update_byte version_bits 6 digest))

module _ (sha1 : String → List ℕ) (print_id : ℕ → String) where
  unfoldable pub event_id_for : String → String → String
  unfolding uuid_bytes hex digits_text
  event_id_for type business_key =
      dashed (hex (uuid_bytes (sha1 (String.◌++◌ type (String.◌++◌ ":" business_key)))))

  unfoldable pub build_order_placed : OrderData → ℕ → OrderPlacedEvent
  unfolding event_id_for
  build_order_placed body now = record {
    event_id = event_id_for "order.placed" (print_id body.order_id);
    type = "order.placed";
    occurred_at = now;
    body = body;
  }

  unfoldable pub to_order_placed_event : PlacedOrder → OrderPlacedEvent
  to_order_placed_event order = record {
    event_id = event_id_for "order.placed" (print_id order.id);
    type = "order.placed";
    occurred_at = order.placed_at;
    body = record {
      order_id = order.id;
      buyer_id = order.buyer_id;
      product_id = order.product_id;
      quantity = order.quantity;
      total_amount = order.total_amount;
    };
  }

-- ===== src/Line/Tests.antt =====
-- Lines that are built, and the theorem about their heads.
use omarchy_hardware.Common.{◌≡◌, refl, leb, ◌&&◌, some, true, false, [], ◌∷◌}
use omarchy_hardware.Common.Text.{Text, codes, starts_with}
use omarchy_hardware.Errors.{ok, err, invalid_argument}
use omarchy_hardware.Flux.Literal.{replace_char}
use omarchy_hardware.Flux.Query.{Python, short_text, joined}
use omarchy_hardware.Settings.Urls.{decimal}
use omarchy_hardware.Line.{
  escape_each, escape, lp, Value, field_value, tag_parts, field_parts, Stamp, stamp_part, Point,
  build_line,
}
use omarchy_hardware.Line.Head.{read_head, build_line-reads}

abbrev python : Python
python = record {
  is_digit = λ c. leb b'0' c && leb c b'9';
  is_printable = λ c. leb b' ' c;
  decimal = λ n. [];
}

abbrev kitchen : Point
kitchen = record {
  measurement = codes "room temp";
  fields = (codes "on", Value.flag true) ∷ (codes "value", Value.whole true 3) ∷ [];
  tags = (codes "a=b", codes "x,\\") ∷ [];
  timestamp = Stamp.stamp 60;
}

abbrev kitchen_line : Text
kitchen_line = codes "room\\ temp,a\\=b=x\\,\\\\ on=true,value=-3i 60"

built : build_line python kitchen ≡ ok kitchen_line
unfolding build_line lp short_text escape escape_each replace_char tag_parts field_parts field_value
    stamp_part joined starts_with decimal
built = refl

reserved : build_line python (record kitchen { measurement = codes "#room" }) ≡ err invalid_argument
unfolding build_line starts_with
reserved = refl

quoted : field_value (Value.text (codes "a\"\\")) ≡ ok (codes "\"a\\\"\\\\\"")
unfolding field_value replace_char
quoted = refl

too_large : field_value (Value.whole false 9223372036854775808) ≡ err invalid_argument
unfolding field_value
too_large = refl

build_line-reads_example :
    (rest : Text) × (read_head kitchen_line
      ≡ (kitchen.measurement, some (kitchen.tags, b' ' ∷ rest)))
build_line-reads_example = build_line-reads python kitchen kitchen_line built

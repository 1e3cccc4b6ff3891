-- ===== src/Ids/Tables.antt =====
-- The tables of mcp/omarchy_hardware/ids.py, in the source's order.
use omarchy_hardware.Common.{ℕ, Option, some, List, [], ◌∷◌}
use omarchy_hardware.Common.Text.{Text, codes}
use omarchy_hardware.Common.Dict.{Dict}

pub record BoardInfo : Type 0 where
  pub board_type : Text
  pub friendly_name : Text
  pub fqbn : Option Text
  pub baud : ℕ

abbrev pub board : Text → Text → Option Text → ℕ → BoardInfo
board board_type friendly_name fqbn baud = record {
  board_type = board_type;
  friendly_name = friendly_name;
  fqbn = fqbn;
  baud = baud;
}

-- A vendor and a product id.
abbrev pub UsbId : Type 0
UsbId = Text × Text

abbrev pub chips : List (UsbId × Text)
chips =
    ((codes "2e8a", codes "000c"), codes "Raspberry Pi Debug Probe")
    ∷ ((codes "303a", codes "1001"), codes "Espressif USB (S2/S3 ambiguous)")
    ∷ ((codes "1a86", codes "7523"), codes "CH340 USB-serial")
    ∷ ((codes "1a86", codes "5523"), codes "CH341 USB-serial")
    ∷ ((codes "1a86", codes "55d4"), codes "CH9102 USB-serial")
    ∷ ((codes "0403", codes "6001"), codes "FTDI FT232R")
    ∷ ((codes "0403", codes "6010"), codes "FTDI FT2232")
    ∷ ((codes "0403", codes "6015"), codes "FTDI FT231X")
    ∷ ((codes "10c4", codes "ea60"), codes "Silicon Labs CP210x")
    ∷ ((codes "10c4", codes "ea70"), codes "Silicon Labs CP2105")
    ∷ ((codes "067b", codes "2303"), codes "Prolific PL2303")
    ∷ []

abbrev pub rp2_app_boards : Dict BoardInfo
rp2_app_boards =
    (
      codes "rpipico",
      board (codes "rp2040") (codes "Raspberry Pi Pico") (some (codes "rp2040:rp2040:rpipico"))
          115200,
    )
    ∷ (
      codes "rpipicow",
      board (codes "rp2040") (codes "Raspberry Pi Pico W") (some (codes "rp2040:rp2040:rpipicow"))
          115200,
    )
    ∷ (
      codes "rpipico2",
      board (codes "rp2350") (codes "Raspberry Pi Pico 2") (some (codes "rp2040:rp2040:rpipico2"))
          115200,
    )
    ∷ (
      codes "rpipico2w",
      board (codes "rp2350") (codes "Raspberry Pi Pico 2 W")
          (some (codes "rp2040:rp2040:rpipico2w")) 115200,
    )
    ∷ []

abbrev pub rp2_app_products : Dict Text
rp2_app_products =
    (codes "pico", codes "rpipico")
    ∷ (codes "pico w", codes "rpipicow")
    ∷ (codes "pico 2", codes "rpipico2")
    ∷ (codes "pico 2w", codes "rpipico2w")
    ∷ (codes "pico 2 w", codes "rpipico2w")
    ∷ []

abbrev pub rp2_app_pids : Dict Text
rp2_app_pids =
    (codes "0005", codes "rpipico")
    ∷ (codes "000a", codes "rpipico")
    ∷ (codes "000b", codes "rpipico")
    ∷ (codes "f00a", codes "rpipicow")
    ∷ (codes "000f", codes "rpipico2")
    ∷ (codes "f00f", codes "rpipico2w")
    ∷ []

abbrev pub vendors : Dict Text
vendors =
    (codes "2341", codes "Arduino")
    ∷ (codes "2a03", codes "Arduino")
    ∷ (codes "2e8a", codes "Raspberry Pi")
    ∷ (codes "303a", codes "Espressif")
    ∷ (codes "239a", codes "Adafruit")
    ∷ (codes "1b4f", codes "SparkFun")
    ∷ (codes "2886", codes "Seeed Studio")
    ∷ (codes "16c0", codes "PJRC Teensy")
    ∷ (codes "0483", codes "STMicroelectronics")
    ∷ (codes "0d28", codes "BBC micro:bit")
    ∷ []

abbrev pub nucleo_parts : Dict (Text × Text)
nucleo_parts =
    (codes "F030R8", (codes "Nucleo_64", codes "NUCLEO_F030R8"))
    ∷ (codes "F072RB", (codes "Nucleo_64", codes "NUCLEO_F072RB"))
    ∷ (codes "F091RC", (codes "Nucleo_64", codes "NUCLEO_F091RC"))
    ∷ (codes "F103RB", (codes "Nucleo_64", codes "NUCLEO_F103RB"))
    ∷ (codes "F302R8", (codes "Nucleo_64", codes "NUCLEO_F302R8"))
    ∷ (codes "F303RE", (codes "Nucleo_64", codes "NUCLEO_F303RE"))
    ∷ (codes "F401RE", (codes "Nucleo_64", codes "NUCLEO_F401RE"))
    ∷ (codes "F411RE", (codes "Nucleo_64", codes "NUCLEO_F411RE"))
    ∷ (codes "F446RE", (codes "Nucleo_64", codes "NUCLEO_F446RE"))
    ∷ (codes "G071RB", (codes "Nucleo_64", codes "NUCLEO_G071RB"))
    ∷ (codes "G431RB", (codes "Nucleo_64", codes "NUCLEO_G431RB"))
    ∷ (codes "G474RE", (codes "Nucleo_64", codes "NUCLEO_G474RE"))
    ∷ (codes "L053R8", (codes "Nucleo_64", codes "NUCLEO_L053R8"))
    ∷ (codes "L073RZ", (codes "Nucleo_64", codes "NUCLEO_L073RZ"))
    ∷ (codes "L152RE", (codes "Nucleo_64", codes "NUCLEO_L152RE"))
    ∷ (codes "L452RE", (codes "Nucleo_64", codes "NUCLEO_L452RE"))
    ∷ (codes "L476RG", (codes "Nucleo_64", codes "NUCLEO_L476RG"))
    ∷ (codes "F429ZI", (codes "Nucleo_144", codes "NUCLEO_F429ZI"))
    ∷ (codes "F746ZG", (codes "Nucleo_144", codes "NUCLEO_F746ZG"))
    ∷ (codes "F767ZI", (codes "Nucleo_144", codes "NUCLEO_F767ZI"))
    ∷ (codes "H743ZI", (codes "Nucleo_144", codes "NUCLEO_H743ZI"))
    ∷ (codes "F303K8", (codes "Nucleo_32", codes "NUCLEO_F303K8"))
    ∷ (codes "G431KB", (codes "Nucleo_32", codes "NUCLEO_G431KB"))
    ∷ (codes "L432KC", (codes "Nucleo_32", codes "NUCLEO_L432KC"))
    ∷ []

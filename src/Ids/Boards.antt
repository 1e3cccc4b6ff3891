-- ===== src/Ids/Boards.antt =====
-- `BOARDS` of mcp/omarchy_hardware/ids.py, in the source's order.
use omarchy_hardware.Common.{none, some, List, [], ◌∷◌}
use omarchy_hardware.Common.Text.{codes}
use omarchy_hardware.Ids.Tables.{BoardInfo, board, UsbId}

abbrev pub boards : List (UsbId × BoardInfo)
boards =
    (
      (codes "2341", codes "0043"),
      board (codes "arduino_uno") (codes "Arduino Uno") (some (codes "arduino:avr:uno")) 9600,
    )
    ∷ (
      (codes "2341", codes "0001"),
      board (codes "arduino_uno") (codes "Arduino Uno") (some (codes "arduino:avr:uno")) 9600,
    )
    ∷ (
      (codes "2a03", codes "0043"),
      board (codes "arduino_uno") (codes "Arduino Uno (clone)") (some (codes "arduino:avr:uno"))
          9600,
    )
    ∷ (
      (codes "2341", codes "0010"),
      board (codes "arduino_mega") (codes "Arduino Mega 2560") (some (codes "arduino:avr:mega"))
          9600,
    )
    ∷ (
      (codes "2341", codes "0042"),
      board (codes "arduino_mega") (codes "Arduino Mega 2560 R3") (some (codes "arduino:avr:mega"))
          9600,
    )
    ∷ (
      (codes "2341", codes "8036"),
      board (codes "arduino_leonardo") (codes "Arduino Leonardo")
          (some (codes "arduino:avr:leonardo")) 9600,
    )
    ∷ (
      (codes "2341", codes "8037"),
      board (codes "arduino_micro") (codes "Arduino Micro") (some (codes "arduino:avr:micro")) 9600,
    )
    ∷ (
      (codes "2341", codes "0058"),
      board (codes "arduino_nano_every") (codes "Arduino Nano Every")
          (some (codes "arduino:megaavr:nona4809")) 9600,
    )
    ∷ (
      (codes "2341", codes "8057"),
      board (codes "arduino_nano_33_iot") (codes "Arduino Nano 33 IoT")
          (some (codes "arduino:samd:nano_33_iot")) 9600,
    )
    ∷ (
      (codes "2341", codes "805a"),
      board (codes "arduino_nano_33_ble") (codes "Arduino Nano 33 BLE")
          (some (codes "arduino:mbed_nano:nano33ble")) 9600,
    )
    ∷ (
      (codes "2341", codes "003d"),
      board (codes "arduino_due") (codes "Arduino Due") (some (codes "arduino:sam:arduino_due_x"))
          115200,
    )
    ∷ (
      (codes "2341", codes "804d"),
      board (codes "arduino_zero") (codes "Arduino Zero")
          (some (codes "arduino:samd:arduino_zero_native")) 9600,
    )
    ∷ (
      (codes "2341", codes "804e"),
      board (codes "arduino_mkr1000") (codes "Arduino MKR1000")
          (some (codes "arduino:samd:mkr1000")) 9600,
    )
    ∷ (
      (codes "2341", codes "8054"),
      board (codes "arduino_mkrwifi1010") (codes "Arduino MKR WiFi 1010")
          (some (codes "arduino:samd:mkrwifi1010")) 9600,
    )
    ∷ (
      (codes "2341", codes "0069"),
      board (codes "arduino_uno_r4") (codes "Arduino UNO R4 Minima")
          (some (codes "arduino:renesas_uno:minima")) 115200,
    )
    ∷ (
      (codes "2341", codes "1002"),
      board (codes "arduino_uno_r4_wifi") (codes "Arduino UNO R4 WiFi")
          (some (codes "arduino:renesas_uno:unor4wifi")) 115200,
    )
    ∷ (
      (codes "2341", codes "0070"),
      board (codes "arduino_nano_esp32") (codes "Arduino Nano ESP32")
          (some (codes "arduino:esp32:nano_nora")) 115200,
    )
    ∷ (
      (codes "2341", codes "0266"),
      board (codes "arduino_giga") (codes "Arduino GIGA R1 WiFi")
          (some (codes "arduino:mbed_giga:giga")) 115200,
    )
    ∷ (
      (codes "2341", codes "025b"),
      board (codes "arduino_portenta_h7") (codes "Arduino Portenta H7")
          (some (codes "arduino:mbed_portenta:envie_m7")) 115200,
    )
    ∷ (
      (codes "2341", codes "804f"),
      board (codes "arduino_mkrzero") (codes "Arduino MKR ZERO")
          (some (codes "arduino:samd:mkrzero")) 9600,
    )
    ∷ (
      (codes "2341", codes "8050"),
      board (codes "arduino_mkrfox1200") (codes "Arduino MKR FOX 1200")
          (some (codes "arduino:samd:mkrfox1200")) 9600,
    )
    ∷ (
      (codes "2341", codes "8052"),
      board (codes "arduino_mkrgsm1400") (codes "Arduino MKR GSM 1400")
          (some (codes "arduino:samd:mkrgsm1400")) 9600,
    )
    ∷ (
      (codes "2341", codes "8053"),
      board (codes "arduino_mkrwan1300") (codes "Arduino MKR WAN 1300")
          (some (codes "arduino:samd:mkrwan1300")) 9600,
    )
    ∷ (
      (codes "2341", codes "8055"),
      board (codes "arduino_mkrnb1500") (codes "Arduino MKR NB 1500")
          (some (codes "arduino:samd:mkrnb1500")) 9600,
    )
    ∷ (
      (codes "2341", codes "8056"),
      board (codes "arduino_mkrvidor4000") (codes "Arduino MKR Vidor 4000")
          (some (codes "arduino:samd:mkrvidor4000")) 9600,
    )
    ∷ (
      (codes "2341", codes "8059"),
      board (codes "arduino_mkrwan1310") (codes "Arduino MKR WAN 1310")
          (some (codes "arduino:samd:mkrwan1310")) 9600,
    )
    ∷ (
      (codes "2e8a", codes "0005"),
      board (codes "rp2040") (codes "Raspberry Pi Pico") (some (codes "rp2040:rp2040:rpipico"))
          115200,
    )
    ∷ (
      (codes "2e8a", codes "000a"),
      board (codes "rp2040") (codes "Raspberry Pi Pico") (some (codes "rp2040:rp2040:rpipico"))
          115200,
    )
    ∷ (
      (codes "2e8a", codes "000b"),
      board (codes "rp2040") (codes "Raspberry Pi Pico") (some (codes "rp2040:rp2040:rpipico"))
          115200,
    )
    ∷ (
      (codes "2e8a", codes "000f"),
      board (codes "rp2350_bootloader") (codes "Raspberry Pi Pico 2 (BOOTSEL)")
          (some (codes "rp2040:rp2040:rpipico2")) 115200,
    )
    ∷ (
      (codes "2e8a", codes "0003"),
      board (codes "rp2040_bootloader") (codes "Raspberry Pi Pico (BOOTSEL)")
          (some (codes "rp2040:rp2040:rpipico")) 115200,
    )
    ∷ (
      (codes "303a", codes "0002"),
      board (codes "esp32") (codes "ESP32-S2") (some (codes "esp32:esp32:esp32s2")) 115200,
    )
    ∷ (
      (codes "239a", codes "800b"),
      board (codes "adafruit_feather_m0") (codes "Adafruit Feather M0")
          (some (codes "adafruit:samd:adafruit_feather_m0")) 115200,
    )
    ∷ (
      (codes "239a", codes "8022"),
      board (codes "adafruit_feather_m4") (codes "Adafruit Feather M4 Express")
          (some (codes "adafruit:samd:adafruit_feather_m4")) 115200,
    )
    ∷ (
      (codes "239a", codes "80f3"),
      board (codes "adafruit_feather_rp2040") (codes "Adafruit Feather RP2040")
          (some (codes "rp2040:rp2040:adafruit_feather")) 115200,
    )
    ∷ (
      (codes "239a", codes "80f7"),
      board (codes "adafruit_qtpy_rp2040") (codes "Adafruit QT Py RP2040")
          (some (codes "rp2040:rp2040:adafruit_qtpy")) 115200,
    )
    ∷ (
      (codes "239a", codes "80cb"),
      board (codes "adafruit_qtpy_m0") (codes "Adafruit QT Py SAMD21")
          (some (codes "adafruit:samd:adafruit_qtpy_m0")) 115200,
    )
    ∷ (
      (codes "239a", codes "801e"),
      board (codes "adafruit_trinket_m0") (codes "Adafruit Trinket M0")
          (some (codes "adafruit:samd:adafruit_trinket_m0")) 115200,
    )
    ∷ (
      (codes "239a", codes "8018"),
      board (codes "adafruit_circuitplayground_m0") (codes "Adafruit Circuit Playground Express")
          (some (codes "adafruit:samd:adafruit_circuitplayground_m0")) 115200,
    )
    ∷ (
      (codes "239a", codes "8111"),
      board (codes "adafruit_feather_esp32s3") (codes "Adafruit Feather ESP32-S3")
          (some (codes "esp32:esp32:adafruit_feather_esp32s3")) 115200,
    )
    ∷ (
      (codes "239a", codes "8115"),
      board (codes "adafruit_qtpy_esp32s3") (codes "Adafruit QT Py ESP32-S3")
          (some (codes "esp32:esp32:adafruit_qtpy_esp32s3")) 115200,
    )
    ∷ (
      (codes "2886", codes "802f"),
      board (codes "seeed_xiao") (codes "Seeed XIAO SAMD21")
          (some (codes "Seeeduino:samd:seeed_XIAO_m0")) 115200,
    )
    ∷ (
      (codes "2886", codes "8030"),
      board (codes "seeed_xiao_rp2040") (codes "Seeed XIAO RP2040")
          (some (codes "rp2040:rp2040:seeed_xiao_rp2040")) 115200,
    )
    ∷ (
      (codes "2886", codes "8029"),
      board (codes "seeed_xiao_nrf52840") (codes "Seeed XIAO nRF52840")
          (some (codes "Seeeduino:nrf52:xiaoblesense")) 115200,
    )
    ∷ (
      (codes "2886", codes "802d"),
      board (codes "seeed_wio_terminal") (codes "Seeed Wio Terminal")
          (some (codes "Seeeduino:samd:seeed_wio_terminal")) 115200,
    )
    ∷ (
      (codes "1b4f", codes "9206"),
      board (codes "sparkfun_promicro") (codes "SparkFun Pro Micro 5V")
          (some (codes "SparkFun:avr:promicro")) 9600,
    )
    ∷ (
      (codes "1b4f", codes "9204"),
      board (codes "sparkfun_promicro") (codes "SparkFun Pro Micro 3.3V")
          (some (codes "SparkFun:avr:promicro")) 9600,
    )
    ∷ (
      (codes "1b4f", codes "0026"),
      board (codes "sparkfun_promicro_rp2040") (codes "SparkFun Pro Micro RP2040")
          (some (codes "rp2040:rp2040:sparkfun_promicrorp2040")) 115200,
    )
    ∷ (
      (codes "0483", codes "374b"),
      board (codes "unknown") (codes "STM32 ST-LINK V2-1 (board not identified)") (none) 115200,
    )
    ∷ (
      (codes "0483", codes "374e"),
      board (codes "unknown") (codes "STM32 ST-LINK V3 (board not identified)") (none) 115200,
    )
    ∷ (
      (codes "0483", codes "3752"),
      board (codes "unknown") (codes "STM32 ST-LINK V2-1 (board not identified)") (none) 115200,
    )
    ∷ (
      (codes "0483", codes "3753"),
      board (codes "unknown") (codes "STM32 ST-LINK V3 (board not identified)") (none) 115200,
    )
    ∷ (
      (codes "0483", codes "3754"),
      board (codes "unknown") (codes "STM32 ST-LINK V3 (board not identified)") (none) 115200,
    )
    ∷ (
      (codes "0483", codes "5740"),
      board (codes "unknown") (codes "STM32 USB CDC serial (board not identified)") (none) 115200,
    )
    ∷ (
      (codes "0d28", codes "0204"),
      board (codes "unknown") (codes "BBC micro:bit (version not identified)") (none) 115200,
    )
    ∷ []

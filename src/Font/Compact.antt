-- ===== src/Font/Compact.antt =====
-- boards/hazk03-stm32f105rb/src/fontcompact.c: the font of the firmware for two lines.
use telegraph_stm_fw.Base.{ℕ, List, [], ◌∷◌, false}
use telegraph_stm_fw.Font.{Font}

-- g_cp
abbrev pub compact_cp : List ℕ
compact_cp =
    0x0020 ∷ 0x0021 ∷ 0x0022 ∷ 0x0027 ∷ 0x0028 ∷ 0x0029 ∷ 0x002b ∷ 0x002c ∷ 0x002d ∷ 0x002e ∷ 0x002f
    ∷ 0x0030 ∷ 0x0031 ∷ 0x0032 ∷ 0x0033 ∷ 0x0034 ∷ 0x0035 ∷ 0x0036 ∷ 0x0037 ∷ 0x0038 ∷ 0x0039
    ∷ 0x003a ∷ 0x003b ∷ 0x003c ∷ 0x003d ∷ 0x003e ∷ 0x003f ∷ 0x0041 ∷ 0x0042 ∷ 0x0043 ∷ 0x0044
    ∷ 0x0045 ∷ 0x0046 ∷ 0x0047 ∷ 0x0048 ∷ 0x0049 ∷ 0x004a ∷ 0x004b ∷ 0x004c ∷ 0x004d ∷ 0x004e
    ∷ 0x004f ∷ 0x0050 ∷ 0x0051 ∷ 0x0052 ∷ 0x0053 ∷ 0x0054 ∷ 0x0055 ∷ 0x0056 ∷ 0x0057 ∷ 0x0058
    ∷ 0x0059 ∷ 0x005a ∷ 0x005b ∷ 0x005d ∷ 0x005f ∷ 0x0061 ∷ 0x0062 ∷ 0x0063 ∷ 0x0064 ∷ 0x0065
    ∷ 0x0066 ∷ 0x0067 ∷ 0x0068 ∷ 0x0069 ∷ 0x006a ∷ 0x006b ∷ 0x006c ∷ 0x006d ∷ 0x006e ∷ 0x006f
    ∷ 0x0070 ∷ 0x0071 ∷ 0x0072 ∷ 0x0073 ∷ 0x0074 ∷ 0x0075 ∷ 0x0076 ∷ 0x0077 ∷ 0x0078 ∷ 0x0079
    ∷ 0x007a ∷ 0x00b0 ∷ 0x00d3 ∷ 0x00f3 ∷ 0x0104 ∷ 0x0105 ∷ 0x0106 ∷ 0x0107 ∷ 0x0118 ∷ 0x0119
    ∷ 0x0141 ∷ 0x0142 ∷ 0x0143 ∷ 0x0144 ∷ 0x015a ∷ 0x015b ∷ 0x0179 ∷ 0x017a ∷ 0x017b ∷ 0x017c ∷ []

-- g_cols, its rows of three in one list.
abbrev pub compact_cols : List ℕ
compact_cols =
    0x0000 ∷ 0x0000 ∷ 0x0000 ∷ 0x0000 ∷ 0x002e ∷ 0x0000 ∷ 0x0006 ∷ 0x0000 ∷ 0x0006 ∷ 0x0000 ∷ 0x0006
    ∷ 0x0000 ∷ 0x0000 ∷ 0x001c ∷ 0x0022 ∷ 0x0022 ∷ 0x001c ∷ 0x0000 ∷ 0x0008 ∷ 0x001c ∷ 0x0008
    ∷ 0x0020 ∷ 0x0010 ∷ 0x0000 ∷ 0x0008 ∷ 0x0008 ∷ 0x0008 ∷ 0x0000 ∷ 0x0020 ∷ 0x0000 ∷ 0x0030
    ∷ 0x0008 ∷ 0x0006 ∷ 0x003e ∷ 0x0022 ∷ 0x003e ∷ 0x0024 ∷ 0x003e ∷ 0x0020 ∷ 0x003a ∷ 0x002a
    ∷ 0x002e ∷ 0x002a ∷ 0x002a ∷ 0x003e ∷ 0x000e ∷ 0x0008 ∷ 0x003e ∷ 0x002e ∷ 0x002a ∷ 0x003a
    ∷ 0x003e ∷ 0x002a ∷ 0x003a ∷ 0x0002 ∷ 0x0002 ∷ 0x003e ∷ 0x003e ∷ 0x002a ∷ 0x003e ∷ 0x002e
    ∷ 0x002a ∷ 0x003e ∷ 0x0000 ∷ 0x0014 ∷ 0x0000 ∷ 0x0020 ∷ 0x0014 ∷ 0x0000 ∷ 0x0008 ∷ 0x0014
    ∷ 0x0022 ∷ 0x0014 ∷ 0x0014 ∷ 0x0014 ∷ 0x0022 ∷ 0x0014 ∷ 0x0008 ∷ 0x0002 ∷ 0x002a ∷ 0x000e
    ∷ 0x003e ∷ 0x000a ∷ 0x003e ∷ 0x003e ∷ 0x002a ∷ 0x0014 ∷ 0x003e ∷ 0x0022 ∷ 0x0022 ∷ 0x003e
    ∷ 0x0022 ∷ 0x001c ∷ 0x003e ∷ 0x002a ∷ 0x0022 ∷ 0x003e ∷ 0x000a ∷ 0x0002 ∷ 0x003e ∷ 0x0022
    ∷ 0x003a ∷ 0x003e ∷ 0x0008 ∷ 0x003e ∷ 0x0022 ∷ 0x003e ∷ 0x0022 ∷ 0x0030 ∷ 0x0020 ∷ 0x003e
    ∷ 0x003e ∷ 0x0008 ∷ 0x0036 ∷ 0x003e ∷ 0x0020 ∷ 0x0020 ∷ 0x003e ∷ 0x000c ∷ 0x003e ∷ 0x003e
    ∷ 0x0002 ∷ 0x003c ∷ 0x003e ∷ 0x0022 ∷ 0x003e ∷ 0x003e ∷ 0x000a ∷ 0x000e ∷ 0x001e ∷ 0x0012
    ∷ 0x003e ∷ 0x003e ∷ 0x000a ∷ 0x0036 ∷ 0x002e ∷ 0x002a ∷ 0x003a ∷ 0x0002 ∷ 0x003e ∷ 0x0002
    ∷ 0x003e ∷ 0x0020 ∷ 0x003e ∷ 0x001e ∷ 0x0020 ∷ 0x001e ∷ 0x003e ∷ 0x0018 ∷ 0x003e ∷ 0x0036
    ∷ 0x0008 ∷ 0x0036 ∷ 0x0006 ∷ 0x0038 ∷ 0x0006 ∷ 0x0032 ∷ 0x002a ∷ 0x0026 ∷ 0x003e ∷ 0x0022
    ∷ 0x0022 ∷ 0x0022 ∷ 0x0022 ∷ 0x003e ∷ 0x0020 ∷ 0x0020 ∷ 0x0020 ∷ 0x003e ∷ 0x000a ∷ 0x003e
    ∷ 0x003e ∷ 0x002a ∷ 0x0014 ∷ 0x003e ∷ 0x0022 ∷ 0x0022 ∷ 0x003e ∷ 0x0022 ∷ 0x001c ∷ 0x003e
    ∷ 0x002a ∷ 0x0022 ∷ 0x003e ∷ 0x000a ∷ 0x0002 ∷ 0x003e ∷ 0x0022 ∷ 0x003a ∷ 0x003e ∷ 0x0008
    ∷ 0x003e ∷ 0x0022 ∷ 0x003e ∷ 0x0022 ∷ 0x0030 ∷ 0x0020 ∷ 0x003e ∷ 0x003e ∷ 0x0008 ∷ 0x0036
    ∷ 0x003e ∷ 0x0020 ∷ 0x0020 ∷ 0x003e ∷ 0x000c ∷ 0x003e ∷ 0x003e ∷ 0x0002 ∷ 0x003c ∷ 0x003e
    ∷ 0x0022 ∷ 0x003e ∷ 0x003e ∷ 0x000a ∷ 0x000e ∷ 0x001e ∷ 0x0012 ∷ 0x003e ∷ 0x003e ∷ 0x000a
    ∷ 0x0036 ∷ 0x002e ∷ 0x002a ∷ 0x003a ∷ 0x0002 ∷ 0x003e ∷ 0x0002 ∷ 0x003e ∷ 0x0020 ∷ 0x003e
    ∷ 0x001e ∷ 0x0020 ∷ 0x001e ∷ 0x003e ∷ 0x0018 ∷ 0x003e ∷ 0x0036 ∷ 0x0008 ∷ 0x0036 ∷ 0x0006
    ∷ 0x0038 ∷ 0x0006 ∷ 0x0032 ∷ 0x002a ∷ 0x0026 ∷ 0x0006 ∷ 0x0006 ∷ 0x0000 ∷ 0x003e ∷ 0x0022
    ∷ 0x003f ∷ 0x003e ∷ 0x0022 ∷ 0x003f ∷ 0x003e ∷ 0x004a ∷ 0x003e ∷ 0x003e ∷ 0x004a ∷ 0x003e
    ∷ 0x003e ∷ 0x0022 ∷ 0x0023 ∷ 0x003e ∷ 0x0022 ∷ 0x0023 ∷ 0x003e ∷ 0x006a ∷ 0x0022 ∷ 0x003e
    ∷ 0x006a ∷ 0x0022 ∷ 0x003e ∷ 0x0020 ∷ 0x0020 ∷ 0x003e ∷ 0x0020 ∷ 0x0020 ∷ 0x003e ∷ 0x0002
    ∷ 0x003d ∷ 0x003e ∷ 0x0002 ∷ 0x003d ∷ 0x002e ∷ 0x002a ∷ 0x003b ∷ 0x002e ∷ 0x002a ∷ 0x003b
    ∷ 0x0032 ∷ 0x002a ∷ 0x0027 ∷ 0x0032 ∷ 0x002a ∷ 0x0027 ∷ 0x0032 ∷ 0x002b ∷ 0x0026 ∷ 0x0032
    ∷ 0x002b ∷ 0x0026 ∷ []

-- g_compact
abbrev pub compact : Font
compact = record {
  cp = compact_cp;
  cols = compact_cols;
  count = 101;
  width = 3;
  rows = 7;
  ascent = 1;
  stride = 3;
  ascii_fallback = false;
}

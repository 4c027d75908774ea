-- ===== src/XsdClass/Tables.antt =====
-- go/internal/xsdregex/pattern.go: the tables of the Unicode blocks and of the name characters of XML.
use cambium.Prelude.{List, [], ◌∷◌}
use cambium.Strconv.{Text}
use cambium.XsdRanges.{RuneRange}
use cambium.IfFeature.Tokenizer.{codes}

abbrev pub xml_whitespace_ranges : List RuneRange
xml_whitespace_ranges =
    record { lo = 0x9; hi = 0xA }
    ∷ record { lo = 0xD; hi = 0xD }
    ∷ record { lo = 0x20; hi = 0x20 }
    ∷ []

abbrev pub xml_name_start_ranges : List RuneRange
xml_name_start_ranges =
    record { lo = 0x3A; hi = 0x3A }
    ∷ record { lo = 0x41; hi = 0x5A }
    ∷ record { lo = 0x5F; hi = 0x5F }
    ∷ record { lo = 0x61; hi = 0x7A }
    ∷ record { lo = 0xC0; hi = 0xD6 }
    ∷ record { lo = 0xD8; hi = 0xF6 }
    ∷ record { lo = 0xF8; hi = 0x2FF }
    ∷ record { lo = 0x370; hi = 0x37D }
    ∷ record { lo = 0x37F; hi = 0x1FFF }
    ∷ record { lo = 0x200C; hi = 0x200D }
    ∷ record { lo = 0x2070; hi = 0x218F }
    ∷ record { lo = 0x2C00; hi = 0x2FEF }
    ∷ record { lo = 0x3001; hi = 0xD7FF }
    ∷ record { lo = 0xF900; hi = 0xFDCF }
    ∷ record { lo = 0xFDF0; hi = 0xFFFD }
    ∷ record { lo = 0x10000; hi = 0xEFFFF }
    ∷ []

abbrev pub xml_name_char_ranges : List RuneRange
xml_name_char_ranges =
    record { lo = 0x2D; hi = 0x2E }
    ∷ record { lo = 0x30; hi = 0x3A }
    ∷ record { lo = 0x41; hi = 0x5A }
    ∷ record { lo = 0x5F; hi = 0x5F }
    ∷ record { lo = 0x61; hi = 0x7A }
    ∷ record { lo = 0xB7; hi = 0xB7 }
    ∷ record { lo = 0xC0; hi = 0xD6 }
    ∷ record { lo = 0xD8; hi = 0xF6 }
    ∷ record { lo = 0xF8; hi = 0x36F }
    ∷ record { lo = 0x370; hi = 0x37D }
    ∷ record { lo = 0x37F; hi = 0x1FFF }
    ∷ record { lo = 0x200C; hi = 0x200D }
    ∷ record { lo = 0x203F; hi = 0x2040 }
    ∷ record { lo = 0x2070; hi = 0x218F }
    ∷ record { lo = 0x2C00; hi = 0x2FEF }
    ∷ record { lo = 0x3001; hi = 0xD7FF }
    ∷ record { lo = 0xF900; hi = 0xFDCF }
    ∷ record { lo = 0xFDF0; hi = 0xFFFD }
    ∷ record { lo = 0x10000; hi = 0xEFFFF }
    ∷ []

-- The entries of the map `unicodeBlockRanges`.
abbrev pub unicode_block_ranges : List (Text × List RuneRange)
unicode_block_ranges =
    (codes "BasicLatin", record { lo = 0x0; hi = 0x7F } ∷ [])
    ∷ (codes "Latin-1Supplement", record { lo = 0x80; hi = 0xFF } ∷ [])
    ∷ (codes "LatinExtended-A", record { lo = 0x100; hi = 0x17F } ∷ [])
    ∷ (codes "LatinExtended-B", record { lo = 0x180; hi = 0x24F } ∷ [])
    ∷ (codes "IPAExtensions", record { lo = 0x250; hi = 0x2AF } ∷ [])
    ∷ (codes "SpacingModifierLetters", record { lo = 0x2B0; hi = 0x2FF } ∷ [])
    ∷ (codes "CombiningDiacriticalMarks", record { lo = 0x300; hi = 0x36F } ∷ [])
    ∷ (codes "Greek", record { lo = 0x370; hi = 0x3FF } ∷ [])
    ∷ (codes "Cyrillic", record { lo = 0x400; hi = 0x4FF } ∷ [])
    ∷ (codes "Armenian", record { lo = 0x530; hi = 0x58F } ∷ [])
    ∷ (codes "Hebrew", record { lo = 0x590; hi = 0x5FF } ∷ [])
    ∷ (codes "Arabic", record { lo = 0x600; hi = 0x6FF } ∷ [])
    ∷ (codes "Syriac", record { lo = 0x700; hi = 0x74F } ∷ [])
    ∷ (codes "Thaana", record { lo = 0x780; hi = 0x7BF } ∷ [])
    ∷ (codes "Devanagari", record { lo = 0x900; hi = 0x97F } ∷ [])
    ∷ (codes "Bengali", record { lo = 0x980; hi = 0x9FF } ∷ [])
    ∷ (codes "Gurmukhi", record { lo = 0xA00; hi = 0xA7F } ∷ [])
    ∷ (codes "Gujarati", record { lo = 0xA80; hi = 0xAFF } ∷ [])
    ∷ (codes "Oriya", record { lo = 0xB00; hi = 0xB7F } ∷ [])
    ∷ (codes "Tamil", record { lo = 0xB80; hi = 0xBFF } ∷ [])
    ∷ (codes "Telugu", record { lo = 0xC00; hi = 0xC7F } ∷ [])
    ∷ (codes "Kannada", record { lo = 0xC80; hi = 0xCFF } ∷ [])
    ∷ (codes "Malayalam", record { lo = 0xD00; hi = 0xD7F } ∷ [])
    ∷ (codes "Sinhala", record { lo = 0xD80; hi = 0xDFF } ∷ [])
    ∷ (codes "Thai", record { lo = 0xE00; hi = 0xE7F } ∷ [])
    ∷ (codes "Lao", record { lo = 0xE80; hi = 0xEFF } ∷ [])
    ∷ (codes "Tibetan", record { lo = 0xF00; hi = 0xFFF } ∷ [])
    ∷ (codes "Myanmar", record { lo = 0x1000; hi = 0x109F } ∷ [])
    ∷ (codes "Georgian", record { lo = 0x10A0; hi = 0x10FF } ∷ [])
    ∷ (codes "HangulJamo", record { lo = 0x1100; hi = 0x11FF } ∷ [])
    ∷ (codes "Ethiopic", record { lo = 0x1200; hi = 0x137F } ∷ [])
    ∷ (codes "Cherokee", record { lo = 0x13A0; hi = 0x13FF } ∷ [])
    ∷ (codes "UnifiedCanadianAboriginalSyllabics", record { lo = 0x1400; hi = 0x167F } ∷ [])
    ∷ (codes "Ogham", record { lo = 0x1680; hi = 0x169F } ∷ [])
    ∷ (codes "Runic", record { lo = 0x16A0; hi = 0x16FF } ∷ [])
    ∷ (codes "Khmer", record { lo = 0x1780; hi = 0x17FF } ∷ [])
    ∷ (codes "Mongolian", record { lo = 0x1800; hi = 0x18AF } ∷ [])
    ∷ (codes "LatinExtendedAdditional", record { lo = 0x1E00; hi = 0x1EFF } ∷ [])
    ∷ (codes "GreekExtended", record { lo = 0x1F00; hi = 0x1FFF } ∷ [])
    ∷ (codes "GeneralPunctuation", record { lo = 0x2000; hi = 0x206F } ∷ [])
    ∷ (codes "SuperscriptsandSubscripts", record { lo = 0x2070; hi = 0x209F } ∷ [])
    ∷ (codes "CurrencySymbols", record { lo = 0x20A0; hi = 0x20CF } ∷ [])
    ∷ (codes "CombiningMarksforSymbols", record { lo = 0x20D0; hi = 0x20FF } ∷ [])
    ∷ (codes "LetterlikeSymbols", record { lo = 0x2100; hi = 0x214F } ∷ [])
    ∷ (codes "NumberForms", record { lo = 0x2150; hi = 0x218F } ∷ [])
    ∷ (codes "Arrows", record { lo = 0x2190; hi = 0x21FF } ∷ [])
    ∷ (codes "MathematicalOperators", record { lo = 0x2200; hi = 0x22FF } ∷ [])
    ∷ (codes "MiscellaneousTechnical", record { lo = 0x2300; hi = 0x23FF } ∷ [])
    ∷ (codes "ControlPictures", record { lo = 0x2400; hi = 0x243F } ∷ [])
    ∷ (codes "OpticalCharacterRecognition", record { lo = 0x2440; hi = 0x245F } ∷ [])
    ∷ (codes "EnclosedAlphanumerics", record { lo = 0x2460; hi = 0x24FF } ∷ [])
    ∷ (codes "BoxDrawing", record { lo = 0x2500; hi = 0x257F } ∷ [])
    ∷ (codes "BlockElements", record { lo = 0x2580; hi = 0x259F } ∷ [])
    ∷ (codes "GeometricShapes", record { lo = 0x25A0; hi = 0x25FF } ∷ [])
    ∷ (codes "MiscellaneousSymbols", record { lo = 0x2600; hi = 0x26FF } ∷ [])
    ∷ (codes "Dingbats", record { lo = 0x2700; hi = 0x27BF } ∷ [])
    ∷ (codes "BraillePatterns", record { lo = 0x2800; hi = 0x28FF } ∷ [])
    ∷ (codes "CJKRadicalsSupplement", record { lo = 0x2E80; hi = 0x2EFF } ∷ [])
    ∷ (codes "KangxiRadicals", record { lo = 0x2F00; hi = 0x2FDF } ∷ [])
    ∷ (codes "IdeographicDescriptionCharacters", record { lo = 0x2FF0; hi = 0x2FFF } ∷ [])
    ∷ (codes "CJKSymbolsandPunctuation", record { lo = 0x3000; hi = 0x303F } ∷ [])
    ∷ (codes "Hiragana", record { lo = 0x3040; hi = 0x309F } ∷ [])
    ∷ (codes "Katakana", record { lo = 0x30A0; hi = 0x30FF } ∷ [])
    ∷ (codes "Bopomofo", record { lo = 0x3100; hi = 0x312F } ∷ [])
    ∷ (codes "HangulCompatibilityJamo", record { lo = 0x3130; hi = 0x318F } ∷ [])
    ∷ (codes "Kanbun", record { lo = 0x3190; hi = 0x319F } ∷ [])
    ∷ (codes "BopomofoExtended", record { lo = 0x31A0; hi = 0x31BF } ∷ [])
    ∷ (codes "EnclosedCJKLettersandMonths", record { lo = 0x3200; hi = 0x32FF } ∷ [])
    ∷ (codes "CJKCompatibility", record { lo = 0x3300; hi = 0x33FF } ∷ [])
    ∷ (codes "CJKUnifiedIdeographsExtensionA", record { lo = 0x3400; hi = 0x4DB5 } ∷ [])
    ∷ (codes "CJKUnifiedIdeographs", record { lo = 0x4E00; hi = 0x9FFF } ∷ [])
    ∷ (codes "YiSyllables", record { lo = 0xA000; hi = 0xA48F } ∷ [])
    ∷ (codes "YiRadicals", record { lo = 0xA490; hi = 0xA4CF } ∷ [])
    ∷ (codes "HangulSyllables", record { lo = 0xAC00; hi = 0xD7A3 } ∷ [])
    ∷ (codes "PrivateUse", record { lo = 0xE000; hi = 0xF8FF } ∷ [])
    ∷ (codes "CJKCompatibilityIdeographs", record { lo = 0xF900; hi = 0xFAFF } ∷ [])
    ∷ (codes "AlphabeticPresentationForms", record { lo = 0xFB00; hi = 0xFB4F } ∷ [])
    ∷ (codes "ArabicPresentationForms-A", record { lo = 0xFB50; hi = 0xFDFF } ∷ [])
    ∷ (codes "CombiningHalfMarks", record { lo = 0xFE20; hi = 0xFE2F } ∷ [])
    ∷ (codes "CJKCompatibilityForms", record { lo = 0xFE30; hi = 0xFE4F } ∷ [])
    ∷ (codes "SmallFormVariants", record { lo = 0xFE50; hi = 0xFE6F } ∷ [])
    ∷ (codes "ArabicPresentationForms-B", record { lo = 0xFE70; hi = 0xFEFE } ∷ [])
    ∷ (codes "HalfwidthandFullwidthForms", record { lo = 0xFF00; hi = 0xFFEF } ∷ [])
    ∷ (
      codes "Specials",
      record { lo = 0xFEFF; hi = 0xFEFF } ∷ record { lo = 0xFFF0; hi = 0xFFFD } ∷ [],
    )
    ∷ []

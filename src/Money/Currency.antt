-- ===== src/Money/Currency.antt =====
-- internal/domain/money/money.go: `normalizeCurrency` and the ISO 4217 table.
pub mod Normal
use wager_ledger.Base.{
  ℕ, ◌+◌, ◌-◌, ◌≡◌, refl, Bool, true, false, not, ◌&&◌, ◌||◌, List, [], ◌∷◌, Option, none, some,
  Bytes, codes, length, is_empty, str_eq, leb, ◌==◌, if◌then◌else◌, arith,
}
use wager_ledger.Errors.{
  MoneyError, empty_currency, invalid_currency, Error, money, Result, ok, err, ◌>>=◌, ◌>>◌, fail_if,
}

-- The upper case of an ASCII byte.
unfoldable upper : ℕ → ℕ
upper b = if leb b'a' b && leb b b'z' then b - 32 else b

-- The two characters outside ASCII whose upper case is an ASCII letter: U+017F (c5 bf) and
-- U+0131 (c4 b1).
unfoldable upper_pair : ℕ → ℕ → Option ℕ
upper_pair b c =
    if (b == 0xc5) && (c == 0xbf)
    then some b'S'
    else if (b == 0xc4) && (c == 0xb1)
    then some b'I'
    else none

-- `strings.ToUpper`, as far as the code can tell: every other character outside ASCII stays outside
-- it, so that the text is refused whatever its upper case is.
unfoldable to_upper : Bytes → Bytes
unfolding upper upper_pair
to_upper [] = []
to_upper (b ∷ []) = upper b ∷ []
to_upper (b ∷ c ∷ s) = elim (upper_pair b c) [
  | none ↦ upper b ∷ to_upper (c ∷ s)
  | some u ↦ u ∷ to_upper s
]

unfoldable pub is_all_letters : Bytes → Bool
is_all_letters [] = true
is_all_letters (r ∷ s) = (leb b'A' r && leb r b'Z') && is_all_letters s

abbrev iso4217_currencies : List Bytes
iso4217_currencies =
    codes "AED"
    ∷ codes "AFN"
    ∷ codes "ALL"
    ∷ codes "AMD"
    ∷ codes "ANG"
    ∷ codes "AOA"
    ∷ codes "ARS"
    ∷ codes "AUD"
    ∷ codes "AWG"
    ∷ codes "AZN"
    ∷ codes "BAM"
    ∷ codes "BBD"
    ∷ codes "BDT"
    ∷ codes "BGN"
    ∷ codes "BHD"
    ∷ codes "BIF"
    ∷ codes "BMD"
    ∷ codes "BND"
    ∷ codes "BOB"
    ∷ codes "BRL"
    ∷ codes "BSD"
    ∷ codes "BTN"
    ∷ codes "BWP"
    ∷ codes "BYN"
    ∷ codes "BZD"
    ∷ codes "CAD"
    ∷ codes "CDF"
    ∷ codes "CHF"
    ∷ codes "CLP"
    ∷ codes "CNY"
    ∷ codes "COP"
    ∷ codes "CRC"
    ∷ codes "CUP"
    ∷ codes "CVE"
    ∷ codes "CZK"
    ∷ codes "DJF"
    ∷ codes "DKK"
    ∷ codes "DOP"
    ∷ codes "DZD"
    ∷ codes "EGP"
    ∷ codes "ERN"
    ∷ codes "ETB"
    ∷ codes "EUR"
    ∷ codes "FJD"
    ∷ codes "FKP"
    ∷ codes "GBP"
    ∷ codes "GEL"
    ∷ codes "GHS"
    ∷ codes "GIP"
    ∷ codes "GMD"
    ∷ codes "GNF"
    ∷ codes "GTQ"
    ∷ codes "GYD"
    ∷ codes "HKD"
    ∷ codes "HNL"
    ∷ codes "HTG"
    ∷ codes "HUF"
    ∷ codes "IDR"
    ∷ codes "ILS"
    ∷ codes "INR"
    ∷ codes "IQD"
    ∷ codes "IRR"
    ∷ codes "ISK"
    ∷ codes "JMD"
    ∷ codes "JOD"
    ∷ codes "JPY"
    ∷ codes "KES"
    ∷ codes "KGS"
    ∷ codes "KHR"
    ∷ codes "KMF"
    ∷ codes "KPW"
    ∷ codes "KRW"
    ∷ codes "KWD"
    ∷ codes "KYD"
    ∷ codes "KZT"
    ∷ codes "LAK"
    ∷ codes "LBP"
    ∷ codes "LKR"
    ∷ codes "LRD"
    ∷ codes "LSL"
    ∷ codes "LYD"
    ∷ codes "MAD"
    ∷ codes "MDL"
    ∷ codes "MGA"
    ∷ codes "MKD"
    ∷ codes "MMK"
    ∷ codes "MNT"
    ∷ codes "MOP"
    ∷ codes "MRU"
    ∷ codes "MUR"
    ∷ codes "MVR"
    ∷ codes "MWK"
    ∷ codes "MXN"
    ∷ codes "MYR"
    ∷ codes "MZN"
    ∷ codes "NAD"
    ∷ codes "NGN"
    ∷ codes "NIO"
    ∷ codes "NOK"
    ∷ codes "NPR"
    ∷ codes "NZD"
    ∷ codes "OMR"
    ∷ codes "PAB"
    ∷ codes "PEN"
    ∷ codes "PGK"
    ∷ codes "PHP"
    ∷ codes "PKR"
    ∷ codes "PLN"
    ∷ codes "PYG"
    ∷ codes "QAR"
    ∷ codes "RON"
    ∷ codes "RSD"
    ∷ codes "RUB"
    ∷ codes "RWF"
    ∷ codes "SAR"
    ∷ codes "SBD"
    ∷ codes "SCR"
    ∷ codes "SDG"
    ∷ codes "SEK"
    ∷ codes "SGD"
    ∷ codes "SHP"
    ∷ codes "SLE"
    ∷ codes "SOS"
    ∷ codes "SRD"
    ∷ codes "SSP"
    ∷ codes "STN"
    ∷ codes "SYP"
    ∷ codes "SZL"
    ∷ codes "THB"
    ∷ codes "TJS"
    ∷ codes "TMT"
    ∷ codes "TND"
    ∷ codes "TOP"
    ∷ codes "TRY"
    ∷ codes "TTD"
    ∷ codes "TWD"
    ∷ codes "TZS"
    ∷ codes "UAH"
    ∷ codes "UGX"
    ∷ codes "USD"
    ∷ codes "UYU"
    ∷ codes "UZS"
    ∷ codes "VES"
    ∷ codes "VND"
    ∷ codes "VUV"
    ∷ codes "WST"
    ∷ codes "XAF"
    ∷ codes "XCD"
    ∷ codes "XOF"
    ∷ codes "XPF"
    ∷ codes "YER"
    ∷ codes "ZAR"
    ∷ codes "ZMW"
    ∷ codes "ZWL"
    ∷ []

unfoldable has : List Bytes → Bytes → Bool
unfolding str_eq
has [] s = false
has (t ∷ ts) s = str_eq t s || has ts s

unfoldable pub normalize_currency : Bytes → Result Bytes
unfolding to_upper is_all_letters has
normalize_currency currency = do
  fail_if (is_empty currency) (money empty_currency)
  let cur = to_upper currency
  fail_if (not (length cur == 3) || not (is_all_letters cur)) (money invalid_currency)
  fail_if (not (has iso4217_currencies cur)) (money invalid_currency)
  ok cur

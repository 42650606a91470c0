-- ===== src/Cksum/Tables/Row2.antt =====
-- Client/cksum_new.cpp: row 2 of `crctab`.
use secure_file_transfer_sys.Base.{ℕ, List, [], ◌∷◌}

unfoldable pub crctab_2 : List ℕ
crctab_2 =
    0x00000000 ∷ 0x01d8ac87 ∷ 0x03b1590e ∷ 0x0269f589 ∷ 0x0762b21c ∷ 0x06ba1e9b ∷ 0x04d3eb12
    ∷ 0x050b4795 ∷ 0x0ec56438 ∷ 0x0f1dc8bf ∷ 0x0d743d36 ∷ 0x0cac91b1 ∷ 0x09a7d624 ∷ 0x087f7aa3
    ∷ 0x0a168f2a ∷ 0x0bce23ad ∷ 0x1d8ac870 ∷ 0x1c5264f7 ∷ 0x1e3b917e ∷ 0x1fe33df9 ∷ 0x1ae87a6c
    ∷ 0x1b30d6eb ∷ 0x19592362 ∷ 0x18818fe5 ∷ 0x134fac48 ∷ 0x129700cf ∷ 0x10fef546 ∷ 0x112659c1
    ∷ 0x142d1e54 ∷ 0x15f5b2d3 ∷ 0x179c475a ∷ 0x1644ebdd ∷ 0x3b1590e0 ∷ 0x3acd3c67 ∷ 0x38a4c9ee
    ∷ 0x397c6569 ∷ 0x3c7722fc ∷ 0x3daf8e7b ∷ 0x3fc67bf2 ∷ 0x3e1ed775 ∷ 0x35d0f4d8 ∷ 0x3408585f
    ∷ 0x3661add6 ∷ 0x37b90151 ∷ 0x32b246c4 ∷ 0x336aea43 ∷ 0x31031fca ∷ 0x30dbb34d ∷ 0x269f5890
    ∷ 0x2747f417 ∷ 0x252e019e ∷ 0x24f6ad19 ∷ 0x21fdea8c ∷ 0x2025460b ∷ 0x224cb382 ∷ 0x23941f05
    ∷ 0x285a3ca8 ∷ 0x2982902f ∷ 0x2beb65a6 ∷ 0x2a33c921 ∷ 0x2f388eb4 ∷ 0x2ee02233 ∷ 0x2c89d7ba
    ∷ 0x2d517b3d ∷ 0x762b21c0 ∷ 0x77f38d47 ∷ 0x759a78ce ∷ 0x7442d449 ∷ 0x714993dc ∷ 0x70913f5b
    ∷ 0x72f8cad2 ∷ 0x73206655 ∷ 0x78ee45f8 ∷ 0x7936e97f ∷ 0x7b5f1cf6 ∷ 0x7a87b071 ∷ 0x7f8cf7e4
    ∷ 0x7e545b63 ∷ 0x7c3daeea ∷ 0x7de5026d ∷ 0x6ba1e9b0 ∷ 0x6a794537 ∷ 0x6810b0be ∷ 0x69c81c39
    ∷ 0x6cc35bac ∷ 0x6d1bf72b ∷ 0x6f7202a2 ∷ 0x6eaaae25 ∷ 0x65648d88 ∷ 0x64bc210f ∷ 0x66d5d486
    ∷ 0x670d7801 ∷ 0x62063f94 ∷ 0x63de9313 ∷ 0x61b7669a ∷ 0x606fca1d ∷ 0x4d3eb120 ∷ 0x4ce61da7
    ∷ 0x4e8fe82e ∷ 0x4f5744a9 ∷ 0x4a5c033c ∷ 0x4b84afbb ∷ 0x49ed5a32 ∷ 0x4835f6b5 ∷ 0x43fbd518
    ∷ 0x4223799f ∷ 0x404a8c16 ∷ 0x41922091 ∷ 0x44996704 ∷ 0x4541cb83 ∷ 0x47283e0a ∷ 0x46f0928d
    ∷ 0x50b47950 ∷ 0x516cd5d7 ∷ 0x5305205e ∷ 0x52dd8cd9 ∷ 0x57d6cb4c ∷ 0x560e67cb ∷ 0x54679242
    ∷ 0x55bf3ec5 ∷ 0x5e711d68 ∷ 0x5fa9b1ef ∷ 0x5dc04466 ∷ 0x5c18e8e1 ∷ 0x5913af74 ∷ 0x58cb03f3
    ∷ 0x5aa2f67a ∷ 0x5b7a5afd ∷ 0xec564380 ∷ 0xed8eef07 ∷ 0xefe71a8e ∷ 0xee3fb609 ∷ 0xeb34f19c
    ∷ 0xeaec5d1b ∷ 0xe885a892 ∷ 0xe95d0415 ∷ 0xe29327b8 ∷ 0xe34b8b3f ∷ 0xe1227eb6 ∷ 0xe0fad231
    ∷ 0xe5f195a4 ∷ 0xe4293923 ∷ 0xe640ccaa ∷ 0xe798602d ∷ 0xf1dc8bf0 ∷ 0xf0042777 ∷ 0xf26dd2fe
    ∷ 0xf3b57e79 ∷ 0xf6be39ec ∷ 0xf766956b ∷ 0xf50f60e2 ∷ 0xf4d7cc65 ∷ 0xff19efc8 ∷ 0xfec1434f
    ∷ 0xfca8b6c6 ∷ 0xfd701a41 ∷ 0xf87b5dd4 ∷ 0xf9a3f153 ∷ 0xfbca04da ∷ 0xfa12a85d ∷ 0xd743d360
    ∷ 0xd69b7fe7 ∷ 0xd4f28a6e ∷ 0xd52a26e9 ∷ 0xd021617c ∷ 0xd1f9cdfb ∷ 0xd3903872 ∷ 0xd24894f5
    ∷ 0xd986b758 ∷ 0xd85e1bdf ∷ 0xda37ee56 ∷ 0xdbef42d1 ∷ 0xdee40544 ∷ 0xdf3ca9c3 ∷ 0xdd555c4a
    ∷ 0xdc8df0cd ∷ 0xcac91b10 ∷ 0xcb11b797 ∷ 0xc978421e ∷ 0xc8a0ee99 ∷ 0xcdaba90c ∷ 0xcc73058b
    ∷ 0xce1af002 ∷ 0xcfc25c85 ∷ 0xc40c7f28 ∷ 0xc5d4d3af ∷ 0xc7bd2626 ∷ 0xc6658aa1 ∷ 0xc36ecd34
    ∷ 0xc2b661b3 ∷ 0xc0df943a ∷ 0xc10738bd ∷ 0x9a7d6240 ∷ 0x9ba5cec7 ∷ 0x99cc3b4e ∷ 0x981497c9
    ∷ 0x9d1fd05c ∷ 0x9cc77cdb ∷ 0x9eae8952 ∷ 0x9f7625d5 ∷ 0x94b80678 ∷ 0x9560aaff ∷ 0x97095f76
    ∷ 0x96d1f3f1 ∷ 0x93dab464 ∷ 0x920218e3 ∷ 0x906bed6a ∷ 0x91b341ed ∷ 0x87f7aa30 ∷ 0x862f06b7
    ∷ 0x8446f33e ∷ 0x859e5fb9 ∷ 0x8095182c ∷ 0x814db4ab ∷ 0x83244122 ∷ 0x82fceda5 ∷ 0x8932ce08
    ∷ 0x88ea628f ∷ 0x8a839706 ∷ 0x8b5b3b81 ∷ 0x8e507c14 ∷ 0x8f88d093 ∷ 0x8de1251a ∷ 0x8c39899d
    ∷ 0xa168f2a0 ∷ 0xa0b05e27 ∷ 0xa2d9abae ∷ 0xa3010729 ∷ 0xa60a40bc ∷ 0xa7d2ec3b ∷ 0xa5bb19b2
    ∷ 0xa463b535 ∷ 0xafad9698 ∷ 0xae753a1f ∷ 0xac1ccf96 ∷ 0xadc46311 ∷ 0xa8cf2484 ∷ 0xa9178803
    ∷ 0xab7e7d8a ∷ 0xaaa6d10d ∷ 0xbce23ad0 ∷ 0xbd3a9657 ∷ 0xbf5363de ∷ 0xbe8bcf59 ∷ 0xbb8088cc
    ∷ 0xba58244b ∷ 0xb831d1c2 ∷ 0xb9e97d45 ∷ 0xb2275ee8 ∷ 0xb3fff26f ∷ 0xb19607e6 ∷ 0xb04eab61
    ∷ 0xb545ecf4 ∷ 0xb49d4073 ∷ 0xb6f4b5fa ∷ 0xb72c197d ∷ []

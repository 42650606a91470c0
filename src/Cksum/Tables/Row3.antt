-- ===== src/Cksum/Tables/Row3.antt =====
-- Client/cksum_new.cpp: row 3 of `crctab`.
use secure_file_transfer_sys.Base.{ℕ, List, [], ◌∷◌}

unfoldable pub crctab_3 : List ℕ
crctab_3 =
    0x00000000 ∷ 0xdc6d9ab7 ∷ 0xbc1a28d9 ∷ 0x6077b26e ∷ 0x7cf54c05 ∷ 0xa098d6b2 ∷ 0xc0ef64dc
    ∷ 0x1c82fe6b ∷ 0xf9ea980a ∷ 0x258702bd ∷ 0x45f0b0d3 ∷ 0x999d2a64 ∷ 0x851fd40f ∷ 0x59724eb8
    ∷ 0x3905fcd6 ∷ 0xe5686661 ∷ 0xf7142da3 ∷ 0x2b79b714 ∷ 0x4b0e057a ∷ 0x97639fcd ∷ 0x8be161a6
    ∷ 0x578cfb11 ∷ 0x37fb497f ∷ 0xeb96d3c8 ∷ 0x0efeb5a9 ∷ 0xd2932f1e ∷ 0xb2e49d70 ∷ 0x6e8907c7
    ∷ 0x720bf9ac ∷ 0xae66631b ∷ 0xce11d175 ∷ 0x127c4bc2 ∷ 0xeae946f1 ∷ 0x3684dc46 ∷ 0x56f36e28
    ∷ 0x8a9ef49f ∷ 0x961c0af4 ∷ 0x4a719043 ∷ 0x2a06222d ∷ 0xf66bb89a ∷ 0x1303defb ∷ 0xcf6e444c
    ∷ 0xaf19f622 ∷ 0x73746c95 ∷ 0x6ff692fe ∷ 0xb39b0849 ∷ 0xd3ecba27 ∷ 0x0f812090 ∷ 0x1dfd6b52
    ∷ 0xc190f1e5 ∷ 0xa1e7438b ∷ 0x7d8ad93c ∷ 0x61082757 ∷ 0xbd65bde0 ∷ 0xdd120f8e ∷ 0x017f9539
    ∷ 0xe417f358 ∷ 0x387a69ef ∷ 0x580ddb81 ∷ 0x84604136 ∷ 0x98e2bf5d ∷ 0x448f25ea ∷ 0x24f89784
    ∷ 0xf8950d33 ∷ 0xd1139055 ∷ 0x0d7e0ae2 ∷ 0x6d09b88c ∷ 0xb164223b ∷ 0xade6dc50 ∷ 0x718b46e7
    ∷ 0x11fcf489 ∷ 0xcd916e3e ∷ 0x28f9085f ∷ 0xf49492e8 ∷ 0x94e32086 ∷ 0x488eba31 ∷ 0x540c445a
    ∷ 0x8861deed ∷ 0xe8166c83 ∷ 0x347bf634 ∷ 0x2607bdf6 ∷ 0xfa6a2741 ∷ 0x9a1d952f ∷ 0x46700f98
    ∷ 0x5af2f1f3 ∷ 0x869f6b44 ∷ 0xe6e8d92a ∷ 0x3a85439d ∷ 0xdfed25fc ∷ 0x0380bf4b ∷ 0x63f70d25
    ∷ 0xbf9a9792 ∷ 0xa31869f9 ∷ 0x7f75f34e ∷ 0x1f024120 ∷ 0xc36fdb97 ∷ 0x3bfad6a4 ∷ 0xe7974c13
    ∷ 0x87e0fe7d ∷ 0x5b8d64ca ∷ 0x470f9aa1 ∷ 0x9b620016 ∷ 0xfb15b278 ∷ 0x277828cf ∷ 0xc2104eae
    ∷ 0x1e7dd419 ∷ 0x7e0a6677 ∷ 0xa267fcc0 ∷ 0xbee502ab ∷ 0x6288981c ∷ 0x02ff2a72 ∷ 0xde92b0c5
    ∷ 0xcceefb07 ∷ 0x108361b0 ∷ 0x70f4d3de ∷ 0xac994969 ∷ 0xb01bb702 ∷ 0x6c762db5 ∷ 0x0c019fdb
    ∷ 0xd06c056c ∷ 0x3504630d ∷ 0xe969f9ba ∷ 0x891e4bd4 ∷ 0x5573d163 ∷ 0x49f12f08 ∷ 0x959cb5bf
    ∷ 0xf5eb07d1 ∷ 0x29869d66 ∷ 0xa6e63d1d ∷ 0x7a8ba7aa ∷ 0x1afc15c4 ∷ 0xc6918f73 ∷ 0xda137118
    ∷ 0x067eebaf ∷ 0x660959c1 ∷ 0xba64c376 ∷ 0x5f0ca517 ∷ 0x83613fa0 ∷ 0xe3168dce ∷ 0x3f7b1779
    ∷ 0x23f9e912 ∷ 0xff9473a5 ∷ 0x9fe3c1cb ∷ 0x438e5b7c ∷ 0x51f210be ∷ 0x8d9f8a09 ∷ 0xede83867
    ∷ 0x3185a2d0 ∷ 0x2d075cbb ∷ 0xf16ac60c ∷ 0x911d7462 ∷ 0x4d70eed5 ∷ 0xa81888b4 ∷ 0x74751203
    ∷ 0x1402a06d ∷ 0xc86f3ada ∷ 0xd4edc4b1 ∷ 0x08805e06 ∷ 0x68f7ec68 ∷ 0xb49a76df ∷ 0x4c0f7bec
    ∷ 0x9062e15b ∷ 0xf0155335 ∷ 0x2c78c982 ∷ 0x30fa37e9 ∷ 0xec97ad5e ∷ 0x8ce01f30 ∷ 0x508d8587
    ∷ 0xb5e5e3e6 ∷ 0x69887951 ∷ 0x09ffcb3f ∷ 0xd5925188 ∷ 0xc910afe3 ∷ 0x157d3554 ∷ 0x750a873a
    ∷ 0xa9671d8d ∷ 0xbb1b564f ∷ 0x6776ccf8 ∷ 0x07017e96 ∷ 0xdb6ce421 ∷ 0xc7ee1a4a ∷ 0x1b8380fd
    ∷ 0x7bf43293 ∷ 0xa799a824 ∷ 0x42f1ce45 ∷ 0x9e9c54f2 ∷ 0xfeebe69c ∷ 0x22867c2b ∷ 0x3e048240
    ∷ 0xe26918f7 ∷ 0x821eaa99 ∷ 0x5e73302e ∷ 0x77f5ad48 ∷ 0xab9837ff ∷ 0xcbef8591 ∷ 0x17821f26
    ∷ 0x0b00e14d ∷ 0xd76d7bfa ∷ 0xb71ac994 ∷ 0x6b775323 ∷ 0x8e1f3542 ∷ 0x5272aff5 ∷ 0x32051d9b
    ∷ 0xee68872c ∷ 0xf2ea7947 ∷ 0x2e87e3f0 ∷ 0x4ef0519e ∷ 0x929dcb29 ∷ 0x80e180eb ∷ 0x5c8c1a5c
    ∷ 0x3cfba832 ∷ 0xe0963285 ∷ 0xfc14ccee ∷ 0x20795659 ∷ 0x400ee437 ∷ 0x9c637e80 ∷ 0x790b18e1
    ∷ 0xa5668256 ∷ 0xc5113038 ∷ 0x197caa8f ∷ 0x05fe54e4 ∷ 0xd993ce53 ∷ 0xb9e47c3d ∷ 0x6589e68a
    ∷ 0x9d1cebb9 ∷ 0x4171710e ∷ 0x2106c360 ∷ 0xfd6b59d7 ∷ 0xe1e9a7bc ∷ 0x3d843d0b ∷ 0x5df38f65
    ∷ 0x819e15d2 ∷ 0x64f673b3 ∷ 0xb89be904 ∷ 0xd8ec5b6a ∷ 0x0481c1dd ∷ 0x18033fb6 ∷ 0xc46ea501
    ∷ 0xa419176f ∷ 0x78748dd8 ∷ 0x6a08c61a ∷ 0xb6655cad ∷ 0xd612eec3 ∷ 0x0a7f7474 ∷ 0x16fd8a1f
    ∷ 0xca9010a8 ∷ 0xaae7a2c6 ∷ 0x768a3871 ∷ 0x93e25e10 ∷ 0x4f8fc4a7 ∷ 0x2ff876c9 ∷ 0xf395ec7e
    ∷ 0xef171215 ∷ 0x337a88a2 ∷ 0x530d3acc ∷ 0x8f60a07b ∷ []

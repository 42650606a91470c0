-- ===== src/Cksum/Tables/Row6.antt =====
-- Client/cksum_new.cpp: row 6 of `crctab`.
use secure_file_transfer_sys.Base.{ℕ, List, [], ◌∷◌}

unfoldable pub crctab_6 : List ℕ
crctab_6 =
    0x00000000 ∷ 0x4f576811 ∷ 0x9eaed022 ∷ 0xd1f9b833 ∷ 0x399cbdf3 ∷ 0x76cbd5e2 ∷ 0xa7326dd1
    ∷ 0xe86505c0 ∷ 0x73397be6 ∷ 0x3c6e13f7 ∷ 0xed97abc4 ∷ 0xa2c0c3d5 ∷ 0x4aa5c615 ∷ 0x05f2ae04
    ∷ 0xd40b1637 ∷ 0x9b5c7e26 ∷ 0xe672f7cc ∷ 0xa9259fdd ∷ 0x78dc27ee ∷ 0x378b4fff ∷ 0xdfee4a3f
    ∷ 0x90b9222e ∷ 0x41409a1d ∷ 0x0e17f20c ∷ 0x954b8c2a ∷ 0xda1ce43b ∷ 0x0be55c08 ∷ 0x44b23419
    ∷ 0xacd731d9 ∷ 0xe38059c8 ∷ 0x3279e1fb ∷ 0x7d2e89ea ∷ 0xc824f22f ∷ 0x87739a3e ∷ 0x568a220d
    ∷ 0x19dd4a1c ∷ 0xf1b84fdc ∷ 0xbeef27cd ∷ 0x6f169ffe ∷ 0x2041f7ef ∷ 0xbb1d89c9 ∷ 0xf44ae1d8
    ∷ 0x25b359eb ∷ 0x6ae431fa ∷ 0x8281343a ∷ 0xcdd65c2b ∷ 0x1c2fe418 ∷ 0x53788c09 ∷ 0x2e5605e3
    ∷ 0x61016df2 ∷ 0xb0f8d5c1 ∷ 0xffafbdd0 ∷ 0x17cab810 ∷ 0x589dd001 ∷ 0x89646832 ∷ 0xc6330023
    ∷ 0x5d6f7e05 ∷ 0x12381614 ∷ 0xc3c1ae27 ∷ 0x8c96c636 ∷ 0x64f3c3f6 ∷ 0x2ba4abe7 ∷ 0xfa5d13d4
    ∷ 0xb50a7bc5 ∷ 0x9488f9e9 ∷ 0xdbdf91f8 ∷ 0x0a2629cb ∷ 0x457141da ∷ 0xad14441a ∷ 0xe2432c0b
    ∷ 0x33ba9438 ∷ 0x7cedfc29 ∷ 0xe7b1820f ∷ 0xa8e6ea1e ∷ 0x791f522d ∷ 0x36483a3c ∷ 0xde2d3ffc
    ∷ 0x917a57ed ∷ 0x4083efde ∷ 0x0fd487cf ∷ 0x72fa0e25 ∷ 0x3dad6634 ∷ 0xec54de07 ∷ 0xa303b616
    ∷ 0x4b66b3d6 ∷ 0x0431dbc7 ∷ 0xd5c863f4 ∷ 0x9a9f0be5 ∷ 0x01c375c3 ∷ 0x4e941dd2 ∷ 0x9f6da5e1
    ∷ 0xd03acdf0 ∷ 0x385fc830 ∷ 0x7708a021 ∷ 0xa6f11812 ∷ 0xe9a67003 ∷ 0x5cac0bc6 ∷ 0x13fb63d7
    ∷ 0xc202dbe4 ∷ 0x8d55b3f5 ∷ 0x6530b635 ∷ 0x2a67de24 ∷ 0xfb9e6617 ∷ 0xb4c90e06 ∷ 0x2f957020
    ∷ 0x60c21831 ∷ 0xb13ba002 ∷ 0xfe6cc813 ∷ 0x1609cdd3 ∷ 0x595ea5c2 ∷ 0x88a71df1 ∷ 0xc7f075e0
    ∷ 0xbadefc0a ∷ 0xf589941b ∷ 0x24702c28 ∷ 0x6b274439 ∷ 0x834241f9 ∷ 0xcc1529e8 ∷ 0x1dec91db
    ∷ 0x52bbf9ca ∷ 0xc9e787ec ∷ 0x86b0effd ∷ 0x574957ce ∷ 0x181e3fdf ∷ 0xf07b3a1f ∷ 0xbf2c520e
    ∷ 0x6ed5ea3d ∷ 0x2182822c ∷ 0x2dd0ee65 ∷ 0x62878674 ∷ 0xb37e3e47 ∷ 0xfc295656 ∷ 0x144c5396
    ∷ 0x5b1b3b87 ∷ 0x8ae283b4 ∷ 0xc5b5eba5 ∷ 0x5ee99583 ∷ 0x11befd92 ∷ 0xc04745a1 ∷ 0x8f102db0
    ∷ 0x67752870 ∷ 0x28224061 ∷ 0xf9dbf852 ∷ 0xb68c9043 ∷ 0xcba219a9 ∷ 0x84f571b8 ∷ 0x550cc98b
    ∷ 0x1a5ba19a ∷ 0xf23ea45a ∷ 0xbd69cc4b ∷ 0x6c907478 ∷ 0x23c71c69 ∷ 0xb89b624f ∷ 0xf7cc0a5e
    ∷ 0x2635b26d ∷ 0x6962da7c ∷ 0x8107dfbc ∷ 0xce50b7ad ∷ 0x1fa90f9e ∷ 0x50fe678f ∷ 0xe5f41c4a
    ∷ 0xaaa3745b ∷ 0x7b5acc68 ∷ 0x340da479 ∷ 0xdc68a1b9 ∷ 0x933fc9a8 ∷ 0x42c6719b ∷ 0x0d91198a
    ∷ 0x96cd67ac ∷ 0xd99a0fbd ∷ 0x0863b78e ∷ 0x4734df9f ∷ 0xaf51da5f ∷ 0xe006b24e ∷ 0x31ff0a7d
    ∷ 0x7ea8626c ∷ 0x0386eb86 ∷ 0x4cd18397 ∷ 0x9d283ba4 ∷ 0xd27f53b5 ∷ 0x3a1a5675 ∷ 0x754d3e64
    ∷ 0xa4b48657 ∷ 0xebe3ee46 ∷ 0x70bf9060 ∷ 0x3fe8f871 ∷ 0xee114042 ∷ 0xa1462853 ∷ 0x49232d93
    ∷ 0x06744582 ∷ 0xd78dfdb1 ∷ 0x98da95a0 ∷ 0xb958178c ∷ 0xf60f7f9d ∷ 0x27f6c7ae ∷ 0x68a1afbf
    ∷ 0x80c4aa7f ∷ 0xcf93c26e ∷ 0x1e6a7a5d ∷ 0x513d124c ∷ 0xca616c6a ∷ 0x8536047b ∷ 0x54cfbc48
    ∷ 0x1b98d459 ∷ 0xf3fdd199 ∷ 0xbcaab988 ∷ 0x6d5301bb ∷ 0x220469aa ∷ 0x5f2ae040 ∷ 0x107d8851
    ∷ 0xc1843062 ∷ 0x8ed35873 ∷ 0x66b65db3 ∷ 0x29e135a2 ∷ 0xf8188d91 ∷ 0xb74fe580 ∷ 0x2c139ba6
    ∷ 0x6344f3b7 ∷ 0xb2bd4b84 ∷ 0xfdea2395 ∷ 0x158f2655 ∷ 0x5ad84e44 ∷ 0x8b21f677 ∷ 0xc4769e66
    ∷ 0x717ce5a3 ∷ 0x3e2b8db2 ∷ 0xefd23581 ∷ 0xa0855d90 ∷ 0x48e05850 ∷ 0x07b73041 ∷ 0xd64e8872
    ∷ 0x9919e063 ∷ 0x02459e45 ∷ 0x4d12f654 ∷ 0x9ceb4e67 ∷ 0xd3bc2676 ∷ 0x3bd923b6 ∷ 0x748e4ba7
    ∷ 0xa577f394 ∷ 0xea209b85 ∷ 0x970e126f ∷ 0xd8597a7e ∷ 0x09a0c24d ∷ 0x46f7aa5c ∷ 0xae92af9c
    ∷ 0xe1c5c78d ∷ 0x303c7fbe ∷ 0x7f6b17af ∷ 0xe4376989 ∷ 0xab600198 ∷ 0x7a99b9ab ∷ 0x35ced1ba
    ∷ 0xddabd47a ∷ 0x92fcbc6b ∷ 0x43050458 ∷ 0x0c526c49 ∷ []
